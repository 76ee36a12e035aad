-- ===== src/Kernel/Database/Start.antt =====
-- What a service asks of the database server when it starts, and when it gives up:
-- libs/py-common/devblog_common/persistence/database.py.
use myblog.Base.{
  ℕ, zero, suc, Text, true, false, Bool-cases, inl, inr, ◌≡◌, ◌⊎◌, refl, List, [], ◌∷◌, ◌++◌,
  append_assoc, append-nil, sym, ◌∙◌, All, nat_eq, leb, length, ◌&&◌, arith, subst, and-true, some,
  Option-cases,
}
use myblog.Base.Python.{drop_final_newline}
use myblog.Kernel.Errors.{Result, Result-cases, ok, err, Exc, value_error, runtime_error}
use myblog.Kernel.Database.{
  DatabaseSettings, is_mssql, is_db_name, create_statement, snapshot_statement, Call, connect,
  cursor, execute, close, sleep, attempt, attempts, ensure_database, prepare, first_of, is_letter,
  is_name_char, all_name_chars, name_pattern,
}

-- The calls of an attempt that goes through
abbrev pub whole : Text → List Call
whole name =
    connect
    ∷ cursor
    ∷ execute (create_statement name)
    ∷ execute (snapshot_statement name)
    ∷ close
    ∷ []

-- The calls of an attempt that fails
pub data Failed (name : Text) : List Call → Type 0 where
  not_connected : Failed name (connect ∷ [])
  no_cursor : Failed name (connect ∷ cursor ∷ close ∷ [])
  not_created : Failed name (connect ∷ cursor ∷ execute (create_statement name) ∷ close ∷ [])
  not_closed : Failed name (whole name)

-- What some number of attempts come to, and their calls
pub data Attempts (name : Text) : ℕ → Result (Unit {0}) → List Call → Type 0 where
  gave_up : Attempts name 0 (err runtime_error) []
  prepared : (n : ℕ) → Attempts name (suc n) (ok tt) (whole name)
  waited :
      (n : ℕ) (r : Result (Unit {0})) (first rest : List Call)
      → Failed name first
      → Attempts name n r rest
      → Attempts name (suc n) r (first ++ (sleep 3 ∷ rest))

-- Neither a quote nor a bracket, which would end the name within a statement
abbrev pub IsPlain : ℕ → Type 0
IsPlain c = (nat_eq c 39 ≡ false) × (nat_eq c 91 ≡ false) × (nat_eq c 93 ≡ false)

letter-IsPlain : (c : ℕ) → is_letter c ≡ true → IsPlain c
letter-IsPlain c h = ground arith

char-IsPlain : (c : ℕ) → is_name_char c ≡ true → IsPlain c
char-IsPlain c h = ground arith

chars-IsPlain : (t : Text) → all_name_chars t ≡ true → All IsPlain t
chars-IsPlain [] h = tt
chars-IsPlain (c ∷ t) h =
    let (first, rest) = and-true (is_name_char c) (all_name_chars t) h in
    (char-IsPlain c first, chars-IsPlain t rest)

pattern-IsPlain : (t : Text) → name_pattern t ≡ true → All IsPlain t
pattern-IsPlain [] h = tt
pattern-IsPlain (c ∷ t) h =
    let (first, rest) = and-true (is_letter c) (leb (length t) 63 && all_name_chars t) h in
    (
      letter-IsPlain c first,
      chars-IsPlain t (and-true (leb (length t) 63) (all_name_chars t) rest).1,
    )

feed-IsPlain : (c : ℕ) → nat_eq c 10 ≡ true → IsPlain c
feed-IsPlain c h = ground arith

newline-IsPlain : (t r : Text) → drop_final_newline t ≡ some r → All IsPlain r → All IsPlain t
newline-IsPlain [] r h plain = tt
newline-IsPlain (c ∷ []) r h plain = elim (Bool-cases (nat_eq c 10)) [
  | inl feed ↦ (feed-IsPlain c feed, tt)
  | inr other ↦ let bad = rw other at h in cc
]
newline-IsPlain (c ∷ d ∷ t) r h plain = elim (Option-cases (drop_final_newline (d ∷ t))) [
  | inl nothing ↦ let bad = rw nothing at h in cc
  | inr (r', shorter) ↦
      let same : c ∷ r' ≡ r = (let e = rw shorter at h in cc) in
      let (first, rest) = subst (All IsPlain) (sym same) plain in
      (first, newline-IsPlain (d ∷ t) r' shorter rest)
]

name-IsPlain : (t : Text) → is_db_name t ≡ true → All IsPlain t
unfolding is_db_name
name-IsPlain t h = elim (Bool-cases (name_pattern t)) [
  | inl fine ↦ pattern-IsPlain t fine
  | inr other ↦ elim (Option-cases (drop_final_newline t)) [
    | inl nothing ↦ let bad = rw (other, nothing) at h in cc
    | inr (r, shorter) ↦ newline-IsPlain t r shorter (pattern-IsPlain r (rw (other, shorter) at h))
  ]
]

module _ (pymssql : List Call → Result (Unit {0})) where
  Tried : Text → List Call → Result (Unit {0}) × List Call → Type 0
  Tried name before (r, after) =
      ((r ≡ ok tt) × (after ≡ before ++ whole name))
      ⊎ ((e : Exc) × (first : List Call) × (r ≡ err e)
          × (after ≡ before ++ first)
          × Failed name first)

  not_reached :
      (name : Text) (before : List Call) (e : Exc)
      → Tried name before (err e, before ++ (connect ∷ []))
  unfolding Tried
  not_reached name before e = inr (e, connect ∷ [], refl, refl, not_connected)

  raises_still :
      (c : Result (Unit {0})) (e : Exc) → (e' : Exc) × (first_of pymssql c (err e) ≡ err e')
  raises_still (ok t) e = (e, refl)
  raises_still (err e') e = (e', refl)

  -- An exception behind the connection, after some calls
  fails :
      (name : Text) (before done first : List Call) (e : Exc)
      → done ++ (close ∷ []) ≡ before ++ first
      → Failed name first
      → Tried name before
          (first_of pymssql (pymssql (done ++ (close ∷ []))) (err e), done ++ (close ∷ []))
  unfolding Tried
  fails name before done first e same failed =
      let (e', raised) = raises_still (pymssql (done ++ (close ∷ []))) e in
      inr (e', first, raised, same, failed)

  closes :
      (name : Text) (before done : List Call)
      → done ++ (close ∷ []) ≡ before ++ whole name
      → Tried name before
          (first_of pymssql (pymssql (done ++ (close ∷ []))) (ok tt), done ++ (close ∷ []))
  unfolding Tried
  closes name before done same = elim (Result-cases (pymssql (done ++ (close ∷ [])))) [
    | inl (_, fine) ↦ rw fine (inl (refl, same))
    | inr (e, raised) ↦ rw raised (inr (e, whole name, refl, same, not_closed))
  ]

  attempt-Tried :
      (name : Text) (before : List Call) → Tried name before (attempt pymssql name before)
  unfolding attempt prepare
  attempt-Tried name before =
      let b1 = before ++ (connect ∷ []) in
      let b2 = b1 ++ (cursor ∷ []) in
      let b3 = b2 ++ (execute (create_statement name) ∷ []) in
      let b4 = b3 ++ (execute (snapshot_statement name) ∷ []) in
      elim (Result-cases (pymssql b1)) [
        | inr (e, refused) ↦ rw refused (not_reached name before e)
        | inl (_, reached) ↦ elim (Result-cases (pymssql b2)) [
          | inr (e, failed) ↦
              rw (reached, failed) (fails name before b2 _ e (simp append_assoc) no_cursor)
          | inl (_, ready) ↦ elim (Result-cases (pymssql b3)) [
            | inr (e, failed) ↦
                rw (reached, ready, failed)
                  (fails name before b3 _ e (simp append_assoc) not_created)
            | inl (_, created) ↦ elim (Result-cases (pymssql b4)) [
              | inr (e, failed) ↦
                  rw (reached, ready, created, failed) (closes name before b4 (simp append_assoc))
              | inl (_, set) ↦
                  rw (reached, ready, created, set) (closes name before b4 (simp append_assoc))
            ]
          ]
        ]
      ]

  attempts-Attempts :
      (name : Text) (n : ℕ) (before : List Call)
      → let (r, after) = attempts pymssql name n before in
        (calls : List Call) × (after ≡ before ++ calls) × Attempts name n r calls
  unfolding attempts Tried
  attempts-Attempts name zero before = ([], sym (append-nil before), gave_up)
  attempts-Attempts name (suc n) before = elim (attempt-Tried name before) [
    | inl (fine, all) ↦ (whole name, rw fine all, rw fine (prepared n))
    | inr (e, first, raised, all, failed) ↦
        let paused = (attempt pymssql name before).1 ++ (sleep 3 ∷ []) in
        let (rest, after, again) = attempts-Attempts name n paused in
        (
          first ++ (sleep 3 ∷ rest),
          rw raised (after ∙ (rw all (simp append_assoc))),
          rw raised (waited n _ first rest failed again),
        )
  ]

  -- When a service starts: with another database than SQL Server it does nothing; a name of the
  -- database that the pattern refuses raises a ValueError and no call is made. Otherwise the name
  -- holds neither a quote nor a bracket, and there are as many attempts as the settings say at most,
  -- each of which closes the connection that it opened: all but the last have failed and are
  -- followed by a pause of 3 seconds, and the service starts with the first that goes through, or
  -- raises a RuntimeError after all of them.
  pub ensure_database_lem :
      (s : DatabaseSettings) (before : List Call)
      → let (r, after) = ensure_database pymssql s before in
        ((is_mssql s ≡ false) × (r ≡ ok tt) × (after ≡ before))
        ⊎ ((is_mssql s ≡ true)
            × (is_db_name s.db_name ≡ false)
            × (r ≡ err value_error)
            × (after ≡ before))
        ⊎ ((is_mssql s ≡ true)
            × (is_db_name s.db_name ≡ true)
            × All IsPlain s.db_name
            × ((calls : List Call) × (after ≡ before ++ calls)
                × Attempts s.db_name s.db_connect_retries r calls))
  unfolding ensure_database
  ensure_database_lem s before = elim (Bool-cases (is_mssql s)) [
    | inr other ↦ rw other (inl (refl, refl, refl))
    | inl server ↦ elim (Bool-cases (is_db_name s.db_name)) [
      | inr strange ↦ rw (server, strange) (inr (inl (refl, refl, refl, refl)))
      | inl named ↦
          rw (server, named)
            (inr (
              inr (
                refl,
                refl,
                name-IsPlain s.db_name named,
                attempts-Attempts s.db_name s.db_connect_retries before,
              )))
    ]
  ]
