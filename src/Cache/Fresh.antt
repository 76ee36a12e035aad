-- ===== src/Cache/Fresh.antt =====
-- Readers and writers of one cached value, in any interleaving. A writer commits and then bumps the
-- version; a reader asks for the version, loads the value and stores it under that version. What is
-- cached under a version is never older than the last commit before the version began.
use mathlib.Core.List.{Memᴰ}
use myblog.Cache.{bump, version, remember, look_up, version_key, full_key}
use myblog.Kernel.Redis.{Redis, View}
use myblog.Base.{ℕ, Text, ◌≡◌, ◌≤◌, if◌then◌else◌, List, nat_eq, some, ◌+◌, ◌∷◌}
use myblog.Kernel.Errors.{ok, Exc, err}

-- `commits` counts the commits of the database; `floor` tells, for a version that a bump began, how
-- many there were then. `asked` has the versions that readers were told, `loaded` the versions with
-- the number of commits that a reader's load saw.
pub record World (R : Redis) : Type 0 where
  pub redis : R.State
  pub commits : ℕ
  pub floor : ℕ → ℕ
  pub asked : List ℕ
  pub loaded : List (ℕ × ℕ)

abbrev pub raised_to : ℕ → ℕ → (ℕ → ℕ) → ℕ → ℕ
raised_to n commits floor v = if nat_eq v n then commits else floor v

module _ (R : Redis) (prefix namespace key : Text) (ttl : ℕ) (value : ℕ → R.Json) where
  abbrev pub ns_key : Text
  ns_key = version_key prefix namespace

  abbrev pub key_at : ℕ → Text
  key_at v = full_key prefix namespace v key

  -- One action. `value g` is what the loader reads after `g` commits. A reader may repeat a step,
  -- and may stop after any.
  pub data Step (w u : World R) : Type 0 where
    commit : u ≡ record w { commits = w.commits + 1 } → Step w u
    begin_version :
        (n : ℕ)
        → (R.incr ns_key w.redis).0 ≡ ok n
        → u ≡ record w {
          redis = (bump R prefix namespace w.redis).1;
          floor = raised_to n w.commits w.floor;
        }
        → Step w u
    lose_bump :
        (e : Exc)
        → (R.incr ns_key w.redis).0 ≡ err e
        → u ≡ record w { redis = (bump R prefix namespace w.redis).1 }
        → Step w u
    ask :
        (n : ℕ)
        → (version R prefix namespace w.redis).0 ≡ ok (some n)
        → u ≡ record w { redis = (version R prefix namespace w.redis).1; asked = n ∷ w.asked }
        → Step w u
    look : (v : ℕ) → u ≡ record w { redis = (look_up R prefix (key_at v) w.redis).1 } → Step w u
    load : (v : ℕ) → Memᴰ v w.asked → u ≡ record w { loaded = (v, w.commits) ∷ w.loaded } → Step w u
    store :
        (v g : ℕ)
        → Memᴰ (v, g) w.loaded
        → u ≡ record w { redis = (remember R prefix (key_at v) ttl (value g) w.redis).1 }
        → Step w u

  pub data Reach (start : World R) : World R → Type 0 where
    here : Reach start start
    next : {w u : World R} → Reach start w → Step w u → Reach start u

  module _ (view : View R) where
    abbrev pub current : World R → ℕ
    current w = view.count_of ns_key w.redis

    -- `x` is what the loader read after some number of commits, not less than the floor of `v`.
    abbrev pub IsFresh : World R → ℕ → R.Json → Type 0
    IsFresh w v x = (g : ℕ) × (w.floor v ≤ g) × (g ≤ w.commits) × (x ≡ value g)

    pub record IsValid (w : World R) : Type 0 where
      pub floors : (v : ℕ) → w.floor v ≤ w.commits
      pub known : (v : ℕ) → Memᴰ v w.asked → v ≤ current w
      pub seen :
          (v g : ℕ) → Memᴰ (v, g) w.loaded → (v ≤ current w) × (w.floor v ≤ g) × (g ≤ w.commits)
      pub cached :
          (v : ℕ) (x : R.Json)
          → view.json_of (key_at v) w.redis ≡ some x
          → (v ≤ current w) × IsFresh w v x
