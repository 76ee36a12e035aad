-- ===== src/Cache/Calls.antt =====
-- The calls of the cache and the Redis calls that they make.
use myblog.Cache.{bump, version, remember, look_up, version_key}
use myblog.Kernel.Redis.{Redis, RaisesRedisError}
use myblog.Base.{Text, ◌≡◌, ℕ, arith, some, none, ◌⊎◌, inl, Option, inr, refl}
use myblog.Kernel.Errors.{ok, Result-cases}

module _ (R : Redis) where
  module _ (prefix : Text) where
    pub bump-state :
        (namespace : Text) (s : R.State)
        → (bump R prefix namespace s).1 ≡ (R.incr (version_key prefix namespace) s).1
    bump-state namespace s = ground arith

    pub version-state :
        (namespace : Text) (s : R.State)
        → (version R prefix namespace s).1 ≡ (R.get_count (version_key prefix namespace) s).1
    version-state namespace s = ground arith

    pub version-reads :
        (namespace : Text) (s : R.State) (n : ℕ)
        → (version R prefix namespace s).0 ≡ ok (some n)
        → (R.get_count (version_key prefix namespace) s).0 ≡ ok n
    version-reads namespace s n h = ground arith

    pub remember-state :
        (full : Text) (ttl : ℕ) (x : R.Json) (s : R.State)
        → (remember R prefix full ttl x s).1 ≡ (R.set_json full x ttl s).1
    remember-state full ttl x s = ground arith

    pub look_up-state :
        (full : Text) (s : R.State) → (look_up R prefix full s).1 ≡ (R.get_json full s).1
    unfolding look_up
    look_up-state full s = ground arith

    pub look_up-reads :
        (full : Text) (s : R.State) (x : R.Json)
        → (look_up R prefix full s).0 ≡ ok (some (some x))
        → (R.get_json full s).0 ≡ ok (some x)
    unfolding look_up
    look_up-reads full s x h = ground arith

    module _ (raises : RaisesRedisError R) where
      -- The version is the counter or unknown.
      pub version-cases :
          (namespace : Text) (s : R.State)
          → ((version R prefix namespace s).0 ≡ ok none)
            ⊎ ((n : ℕ) × ((version R prefix namespace s).0 ≡ ok (some n)))
      version-cases namespace s =
          let k = version_key prefix namespace in
          elim (Result-cases (R.get_count k s).0) [
            | inl (n, read) ↦ inr (n, ground arith)
            | inr (e, failed) ↦
                let same = raises.get_count_raises k s e failed in inl (rw (failed, same) refl)
          ]

      pub look_up-cases :
          (full : Text) (s : R.State)
          → ((look_up R prefix full s).0 ≡ ok none)
            ⊎ ((o : Option R.Json) × ((look_up R prefix full s).0 ≡ ok (some o)))
      unfolding look_up
      look_up-cases full s = elim (Result-cases (R.get_json full s).0) [
        | inl (o, read) ↦ inr (o, ground arith)
        | inr (e, failed) ↦
            let same = raises.get_json_raises full s e failed in inl (rw (failed, same) refl)
      ]

      pub remember-ok :
          (full : Text) (ttl : ℕ) (x : R.Json) (s : R.State)
          → (remember R prefix full ttl x s).0 ≡ ok tt
      remember-ok full ttl x s = elim (Result-cases (R.set_json full x ttl s).0) [
        | inl (o, written) ↦ rw written refl
        | inr (e, failed) ↦
            let same = raises.set_json_raises full x ttl s e failed in rw (failed, same) refl
      ]
