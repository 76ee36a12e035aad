-- ===== src/Cache/Coherent.antt =====
-- Every step keeps the cache fresh.
use mathlib.Core.List.{Memᴰ}
use mathlib.Core.List.Memᴰ.{cases_cons}
use myblog.Cache.Fresh
use myblog.Cache.Fresh.{
  Reach, Step, World, ask, begin_version, commit, here, load, look, lose_bump, next, ns_key,
  raised_to, store,
}
use myblog.Kernel.Redis.{Redis, View}
use myblog.Base.{Text, ℕ, ◌≤◌, ◌+◌, ◌≡◌, arith, some, ◌⊎◌, ◌∷◌, inl, inr, ap}
use myblog.Cache.{full_key}
use myblog.Cache.Keys.{full_key-injective}
use myblog.Cache.Calls.{bump-state, version-reads, version-state, look_up-state, remember-state}

module _ (R : Redis) (view : View R) (prefix namespace key : Text) (ttl : ℕ)
    (value : ℕ → R.Json) where
  abbrev Valid : World R → Type 0
  Valid = Fresh.IsValid R prefix namespace key ttl value view

  abbrev count_in : R.State → ℕ
  count_in s = view.count_of (ns_key R prefix namespace key ttl value) s

  -- Redis may lose cached values, and its counter may grow.
  forgetting :
      (w : World R) (s : R.State)
      → count_in w.redis ≤ count_in s
      → ((j : Text) (x : R.Json) → view.json_of j s ≡ some x → view.json_of j w.redis ≡ some x)
      → Valid w
      → Valid (record w { redis = s })
  forgetting w s grows keeps v = record {
    floors = v.floors;
    known = λ n m. let h = v.known n m in omega arith;
    seen = λ n g m. let h = v.seen n g m in (omega arith, h.1, h.2);
    cached = λ n x e. let h = v.cached n x (keeps _ x e) in (omega arith, h.1);
  }

  commits_later : (w : World R) → Valid w → Valid (record w { commits = w.commits + 1 })
  commits_later w v = record {
    floors = λ n. let h = v.floors n in omega arith;
    known = v.known;
    seen = λ n g m. let h = v.seen n g m in (h.0, h.1, omega arith);
    cached = λ n x e. let h = v.cached n x e in (h.0, (h.1.0, h.1.1, omega (arith, h.1.2), h.1.3));
  }

  -- The new version is above all that were told, loaded under or cached under.
  begins :
      (w : World R) (n : ℕ)
      → n ≡ count_in w.redis + 1
      → Valid w
      → (s : R.State) → count_in s ≡ n
      → ((j : Text) (x : R.Json) → view.json_of j s ≡ some x → view.json_of j w.redis ≡ some x)
      → Valid (record w { redis = s; floor = raised_to n w.commits w.floor })
  begins w n above v s counted keeps = record {
    floors = λ m. let h = v.floors m in ground arith;
    known = λ m i. let h = v.known m i in omega arith;
    seen = λ m g i. let h = v.seen m g i in (omega arith, ground (arith, h.0, h.1, h.2), h.2);
    cached = λ m x e.
        let h = v.cached m x (keeps _ x e) in
        (omega arith, (h.1.0, ground (arith, h.0, h.1.1, h.1.2), h.1.2, h.1.3));
  }

  asks :
      (w : World R) (n : ℕ)
      → n ≤ count_in w.redis
      → Valid w
      → Valid (record w { asked = n ∷ w.asked })
  asks w n below v = record {
    floors = v.floors;
    known = λ m i. elim (cases_cons i) [
      | inl same ↦ ground (arith, same, below)
      | inr old ↦ v.known m old
    ];
    seen = v.seen;
    cached = v.cached;
  }

  loads :
      (w : World R) (n : ℕ)
      → Memᴰ n w.asked
      → Valid w
      → Valid (record w { loaded = (n, w.commits) ∷ w.loaded })
  loads w n i v = record {
    floors = v.floors;
    known = v.known;
    seen = λ m g j. elim (cases_cons j) [
      | inl same ↦
          let a : m ≡ n = ap (λ p. p.0) same in
          let b : g ≡ w.commits = ap (λ p. p.1) same in
          let h = v.known n i in
          let f = v.floors m in (ground (arith, a, h), ground (arith, b, f), omega (arith, b))
      | inr old ↦ v.seen m g old
    ];
    cached = v.cached;
  }

  stores :
      (w : World R) (n g : ℕ) (s : R.State)
      → Memᴰ (n, g) w.loaded
      → count_in s ≡ count_in w.redis
      → ((j : Text) (x : R.Json)
          → view.json_of j s ≡ some x
          → (view.json_of j w.redis ≡ some x)
            ⊎ ((j ≡ full_key prefix namespace n key) × (x ≡ value g)))
      → Valid w
      → Valid (record w { redis = s })
  stores w n g s i counted writes v = record {
    floors = v.floors;
    known = λ m j. let h = v.known m j in omega arith;
    seen = λ m k j. let h = v.seen m k j in (omega arith, h.1, h.2);
    cached = λ m x e. elim (writes (full_key prefix namespace m key) x e) [
      | inl old ↦ let h = v.cached m x old in (omega arith, h.1)
      | inr (k, y) ↦
          let same = full_key-injective prefix namespace key m n k in
          let h = v.seen n g i in
          (ground (arith, same, h.0, counted), (g, ground (arith, same, h.1), h.2, y))
    ];
  }

  abbrev Steps : World R → World R → Type 0
  Steps = Step R prefix namespace key ttl value

  Step-IsValid : {w u : World R} → Steps w u → Valid w → Valid u
  Step-IsValid {w} (commit e) v = rw e (commits_later w v)
  Step-IsValid {w} (begin_version n answer e) v =
      let k = ns_key R prefix namespace key ttl value in
      let c = view.incr_counts k w.redis n answer in
      rw (e, bump-state R prefix namespace w.redis)
        (begins w n c.0 v (R.incr k w.redis).1 c.1 (view.incr_keeps k w.redis))
  Step-IsValid {w} (lose_bump x answer e) v =
      let k = ns_key R prefix namespace key ttl value in
      rw (e, bump-state R prefix namespace w.redis)
        (forgetting w (R.incr k w.redis).1 (view.incr_grows k w.redis) (view.incr_keeps k w.redis)
          v)
  Step-IsValid {w} (ask n answer e) v =
      let k = ns_key R prefix namespace key ttl value in
      let keeps = view.get_count_keeps k w.redis in
      let reads =
        view.get_count_reads k w.redis n (version-reads R prefix namespace w.redis n answer) in
      let s = (R.get_count k w.redis).1 in
      let same : count_in s ≡ count_in w.redis = keeps.0 k in
      rw (e, version-state R prefix namespace w.redis)
        (asks (record w { redis = s }) n (omega (arith, reads, same))
          (forgetting w s (omega (arith, same)) keeps.1 v))
  Step-IsValid {w} (look m e) v =
      let k = full_key prefix namespace m key in
      let keeps = view.get_json_keeps k w.redis in
      let s = (R.get_json k w.redis).1 in
      let same : count_in s ≡ count_in w.redis =
        keeps.0 (ns_key R prefix namespace key ttl value) in
      rw (e, look_up-state R prefix k w.redis) (forgetting w s (omega (arith, same)) keeps.1 v)
  Step-IsValid {w} (load m i e) v = rw e (loads w m i v)
  Step-IsValid {w} (store m g i e) v =
      let k = full_key prefix namespace m key in
      rw (e, remember-state R prefix k ttl (value g) w.redis)
        (stores w m g (R.set_json k (value g) ttl w.redis).1 i
          (view.set_json_counts k (value g) ttl w.redis (ns_key R prefix namespace key ttl value))
          (view.set_json_writes k (value g) ttl w.redis) v)

  pub Reach-IsValid :
      {start w : World R} → Valid start → Reach R prefix namespace key ttl value start w → Valid w
  Reach-IsValid v here = v
  Reach-IsValid v (next r s) = Step-IsValid s (Reach-IsValid v r)
