-- ===== src/Tests/Database.antt =====
-- The example of a service that starts: the database server answers from the second attempt on.
use myblog.Base.{
  codes, none, [], ◌∷◌, List, All, ◌≡◌, refl, true, false, ◌⊎◌, ◌++◌, ltb, length, if◌then◌else◌,
}
use myblog.Kernel.Errors.{Result, ok, err, connection_error, value_error}
use myblog.Kernel.Database.{
  DatabaseSettings, Call, connect, sleep, ensure_database, is_mssql, is_db_name,
}
use myblog.Kernel.Database.Start.{ensure_database_lem, IsPlain, Attempts, whole}

abbrev pymssql : List Call → Result (Unit {0})
pymssql calls = if ltb (length calls) 2 then err connection_error else ok tt

abbrev settings : DatabaseSettings
settings = record { database_url = none; db_name = codes "blog_posts"; db_connect_retries = 40 }

second_attempt :
    ensure_database pymssql settings [] ≡ (ok tt, connect ∷ sleep 3 ∷ whole (codes "blog_posts"))
unfolding ensure_database is_db_name
second_attempt = refl

ensure_database_lem_example :
    let (r, after) = ensure_database pymssql settings [] in
    ((is_mssql settings ≡ false) × (r ≡ ok tt) × (after ≡ []))
    ⊎ ((is_mssql settings ≡ true)
        × (is_db_name settings.db_name ≡ false)
        × (r ≡ err value_error)
        × (after ≡ []))
    ⊎ ((is_mssql settings ≡ true)
        × (is_db_name settings.db_name ≡ true)
        × All IsPlain settings.db_name
        × ((calls : List Call) × (after ≡ [] ++ calls)
            × Attempts settings.db_name settings.db_connect_retries r calls))
ensure_database_lem_example = ensure_database_lem pymssql settings []
