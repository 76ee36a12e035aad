-- ===== src/Cache/Reads.antt =====
-- What `get_or_load` answers in a world that readers and writers have reached.
use myblog.Cache.Fresh
use myblog.Cache.{get_or_load, version, look_up, full_key, version_key}
use myblog.Kernel.Redis.{Redis, RaisesRedisError, View}
use myblog.Base.{Text, ℕ, ◌≡◌, ◌⊎◌, some, inl, inr, none, arith, subst, refl}
use myblog.Kernel.Errors.{ok}
use myblog.Cache.Calls.{
  version-cases, look_up-cases, remember-ok, version-reads, look_up-reads, version-state,
}
use myblog.Cache.Fresh.{World, Reach}
use myblog.Cache.Coherent.{Reach-IsValid}

module _ (R : Redis) (raises : RaisesRedisError R) (prefix namespace key : Text) (ttl : ℕ) where
  -- The answer is what was cached under the version that Redis told, or what the loader gives.
  pub answer-cases :
      (x : R.Json) (s : R.State)
      → ((get_or_load R prefix namespace key ttl (ok x) s).0 ≡ ok x)
        ⊎ ((n : ℕ) × (y : R.Json) × ((get_or_load R prefix namespace key ttl (ok x) s).0 ≡ ok y)
            × ((version R prefix namespace s).0 ≡ ok (some n))
            × ((look_up R prefix
                  (full_key prefix namespace n key)
                  (version R prefix namespace s).1).0
                ≡ ok (some (some y))))
  unfolding get_or_load
  answer-cases x s = elim (version-cases R prefix raises namespace s) [
    | inl unknown ↦ inl (rw unknown)
    | inr (n, told) ↦
        let full = full_key prefix namespace n key in
        let s' = (version R prefix namespace s).1 in
        elim (look_up-cases R prefix raises full s') [
          | inl failed ↦ inl (rw (told, failed))
          | inr (none, missed) ↦ inl (
              rw
                (told, missed, remember-ok R prefix raises full ttl x (look_up R prefix full s').1))
          | inr (some y, hit) ↦ inr (n, y, rw (told, hit), told, hit)
        ]
  ]

module _ (R : Redis) (raises : RaisesRedisError R) (view : View R) (prefix namespace key : Text)
    (ttl : ℕ) (value : ℕ → R.Json) where
  -- The calls of Redis raise RedisError only. From a world in which nothing is cached too old, readers and writers take any steps. Then
  -- `get_or_load` answers, and its answer is what the loader read after some number of commits that
  -- is not less than the number there was when the current version began: a read is never older
  -- than the last commit whose bump Redis has carried out and answered.
  pub read-IsFresh :
      (start w : World R)
      → Fresh.IsValid R prefix namespace key ttl value view start
      → Reach R prefix namespace key ttl value start w
      → (x : R.Json) × ((get_or_load R prefix namespace key ttl (ok (value w.commits)) w.redis).0
          ≡ ok x)
        × Fresh.IsFresh R prefix namespace key ttl value view w
            (Fresh.current R prefix namespace key ttl value view w)
            x
  read-IsFresh start w v reach =
      let k = version_key prefix namespace in
      let valid = Reach-IsValid R view prefix namespace key ttl value v reach in
      let s = (version R prefix namespace w.redis).1 in
      let keeps = view.get_count_keeps k w.redis in
      elim (answer-cases R raises prefix namespace key ttl (value w.commits) w.redis) [
        | inl loaded ↦ (
          value w.commits,
          loaded,
          (
            w.commits,
            valid.floors (Fresh.current R prefix namespace key ttl value view w),
            omega arith,
            refl,
          ),
        )
        | inr (n, y, answer, told, hit) ↦
            let read =
              view.get_count_reads k w.redis n (version-reads R prefix namespace w.redis n told) in
            let full = full_key prefix namespace n key in
            let there = view.get_json_reads full s y (look_up-reads R prefix full s y hit) in
            let before : view.json_of full w.redis ≡ some y = keeps.1 full y (
              subst (λ t. view.json_of full t ≡ some y) (version-state R prefix namespace w.redis)
                there) in
            (
              y,
              answer,
              subst (λ m. Fresh.IsFresh R prefix namespace key ttl value view w m y) read
                  (valid.cached n y before).1,
            )
      ]
