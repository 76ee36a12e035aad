-- ===== src/Kernel/Database.antt =====
-- libs/py-common/devblog_common/persistence/database.py: `ensure_database`, with the settings of
-- config.py that it reads. pymssql answers a call by the calls so far; there is one connection at a
-- time, with one cursor.
pub mod Start
use myblog.Base.{
  ℕ, zero, suc, Text, Bool, true, false, not, ◌&&◌, ◌||◌, leb, nat_eq, length, if◌then◌else◌, codes,
  List, [], ◌∷◌, ◌++◌, Option, none, some,
}
use myblog.Base.Python.{match_line, starts_with, is_empty}
use myblog.Kernel.Errors.{Result, ok, err, value_error, runtime_error}
use myblog.Kernel.Exec.{Exec, pure, throw, ◌>>=◌, ◌>>◌}
use myblog.Kernel.Redis.{except_any}

-- The fields of `ServiceSettings` that are read
pub record DatabaseSettings : Type 0 where
  pub database_url : Option Text
  pub db_name : Text
  pub db_connect_retries : ℕ

-- `is_mssql`
abbrev pub is_mssql : DatabaseSettings → Bool
is_mssql s = elim s.database_url [
  | none ↦ true
  | some url ↦ is_empty url || starts_with (codes "mssql") url
]

abbrev pub is_letter : ℕ → Bool
is_letter c = (leb 65 c && leb c 90) || (leb 97 c && leb c 122)

-- `[A-Za-z0-9_]`
abbrev pub is_name_char : ℕ → Bool
is_name_char c = is_letter c || (leb 48 c && leb c 57) || nat_eq c 95

abbrev pub all_name_chars : Text → Bool
all_name_chars [] = true
all_name_chars (c ∷ t) = is_name_char c && all_name_chars t

-- `[A-Za-z][A-Za-z0-9_]{0,63}`
abbrev pub name_pattern : Text → Bool
name_pattern [] = false
name_pattern (c ∷ t) = is_letter c && (leb (length t) 63 && all_name_chars t)

-- `_DB_NAME.match`
unfoldable pub is_db_name : Text → Bool
is_db_name = match_line name_pattern

abbrev pub create_statement : Text → Text
create_statement name =
    codes "IF DB_ID(N'" ++ (name ++ (codes "') IS NULL CREATE DATABASE [" ++ (name ++ codes "]")))

abbrev pub snapshot_statement : Text → Text
snapshot_statement name =
    codes "IF EXISTS (SELECT 1 FROM sys.databases WHERE name = N'"
    ++ (name
        ++ (codes "' AND is_read_committed_snapshot_on = 0) ALTER DATABASE ["
            ++ (name ++ codes "] SET READ_COMMITTED_SNAPSHOT ON WITH ROLLBACK IMMEDIATE")))

-- The calls of pymssql, and `time.sleep`
pub data Call : Type 0 where
  connect : Call
  cursor : Call
  execute : Text → Call
  close : Call
  sleep : ℕ → Call

module _ (pymssql : List Call → Result (Unit {0})) where
  abbrev pub calls : Call → Exec (List Call) (Unit {0})
  calls c before = let all = before ++ (c ∷ []) in (pymssql all, all)

  -- An exception of `conn.close()` goes on in place of the body's.
  abbrev pub first_of : Result (Unit {0}) → Result (Unit {0}) → Result (Unit {0})
  first_of (err e) r = err e
  first_of (ok t) r = r

  abbrev pub finally_close : Exec (List Call) (Unit {0}) → Exec (List Call) (Unit {0})
  finally_close body before =
      let (r, after_body) = body before in
      let (closed, after_close) = calls close after_body in (first_of closed r, after_close)

  -- With an open connection
  unfoldable pub prepare : Text → Exec (List Call) (Unit {0})
  prepare name = do
    calls cursor
    calls (execute (create_statement name))
    except_any (calls (execute (snapshot_statement name))) (pure tt)

  -- The outer `try` block
  unfoldable pub attempt : Text → Exec (List Call) (Unit {0})
  unfolding prepare
  attempt name = do calls connect; finally_close (prepare name)

  -- The loop over the attempts that are left
  unfoldable pub attempts : Text → ℕ → Exec (List Call) (Unit {0})
  unfolding attempt
  attempts name zero before = (err runtime_error, before)
  attempts name (suc n) before =
      let (r, after_try) = attempt name before in
      elim r [ ok t ↦ (ok tt, after_try) | err e ↦ attempts name n (after_try ++ (sleep 3 ∷ [])) ]

  unfoldable pub ensure_database : DatabaseSettings → Exec (List Call) (Unit {0})
  unfolding attempts
  ensure_database s =
      if not (is_mssql s)
      then pure tt
      else if not (is_db_name s.db_name)
      then throw value_error
      else attempts s.db_name s.db_connect_retries
