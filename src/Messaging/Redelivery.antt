-- ===== src/Messaging/Redelivery.antt =====
-- The broker may deliver an event again: the consumer's database does not change by it.
use myblog.Kernel.Redis.{Redis, except_any}
use myblog.Base.{true, false, Bool, Text, ◌≡◌, arith, false, inr, inl, refl, ℕ, suc, ◌⊎◌, zero, ◌∙◌}
use myblog.Kernel.Events.{Envelope}
use myblog.Kernel.Exec.{Exec, pure}
use myblog.Kernel.UnitOfWork.{Store}
use myblog.Messaging.Consumer.{
  already_processed, mark_processed, handle_new, requeue, event_id_of, on_message, attempt, object,
}
use myblog.Kernel.Errors.{Result-cases}

module _ (R : Redis) (with_redis : Bool) (queue : Text) {D : Type 0}
    (handle : Envelope → Exec (Store D R.State) (Unit {0})) where
  -- Whether the event was seen or not, Redis answers or not and the handler raises or not, the
  -- database after a delivery is that before it or that after the handler.
  already_keeps :
      (i : Text) (st : Store D R.State)
      → (already_processed R with_redis queue handle i st).1.db ≡ st.db
  unfolding already_processed
  already_keeps i st = ground arith

  mark_keeps :
      (i : Text) (st : Store D R.State)
      → (mark_processed R with_redis queue handle i st).1.db ≡ st.db
  unfolding mark_processed
  mark_keeps i st = ground arith

  -- The handler's effect on the database depends on the database only.
  abbrev pub IsLocal : Type 0
  IsLocal =
      (e : Envelope) (s t : Store D R.State) → s.db ≡ t.db → (handle e s).1.db ≡ (handle e t).1.db

  -- A new event: whatever is raised, the database is that after the handler.
  new_lem :
      (e : Envelope) (st : Store D R.State)
      → (except_any (handle_new R with_redis queue handle e false) (pure requeue) st).1.db
        ≡ (handle e st).1.db
  unfolding handle_new
  new_lem e st = elim (Result-cases (handle e st).0) [
    | inr (x, raised) ↦ rw raised refl
    | inl (t, fine) ↦
        elim (Result-cases
          (mark_processed R with_redis queue handle (event_id_of e) (handle e st).1).0) [
            | inr (x, raised) ↦ rw (fine, raised) (mark_keeps (event_id_of e) (handle e st).1)
            | inl (t, marked) ↦ rw (fine, marked) (mark_keeps (event_id_of e) (handle e st).1)
          ]
  ]

  attempt-cases :
      IsLocal
      → (e : Envelope) (st : Store D R.State)
      → ((on_message R with_redis queue handle (object e) st).1.db ≡ st.db)
        ⊎ ((on_message R with_redis queue handle (object e) st).1.db ≡ (handle e st).1.db)
  unfolding on_message attempt
  attempt-cases local e st =
      let (r, st') = already_processed R with_redis queue handle (event_id_of e) st in
      let kept = already_keeps (event_id_of e) st in
      elim (Result-cases (already_processed R with_redis queue handle (event_id_of e) st).0) [
        | inr (x, raised) ↦ inl (rw raised kept)
        | inl (true, seen) ↦ inl (unfold handle_new in rw seen kept)
        | inl (false, new) ↦ inr (rw new (new_lem e st' ∙ local e st' st kept))
      ]

  -- The broker delivers the event `n` times.
  abbrev pub deliver : ℕ → Envelope → Store D R.State → Store D R.State
  deliver zero e st = st
  deliver (suc n) e st = deliver n e (on_message R with_redis queue handle (object e) st).1

  delivered_lem :
      IsLocal
      → (e : Envelope) (first : Store D R.State)
      → ((s : Store D R.State) → (handle e (handle e s).1).1.db ≡ (handle e s).1.db)
      → (n : ℕ) (st : Store D R.State) → (st.db ≡ first.db) ⊎ (st.db ≡ (handle e first).1.db)
      → ((deliver n e st).db ≡ first.db) ⊎ ((deliver n e st).db ≡ (handle e first).1.db)
  delivered_lem local e first again zero st h = h
  delivered_lem local e first again (suc n) st h =
      let st' = (on_message R with_redis queue handle (object e) st).1 in
      delivered_lem local e first again n st' (elim (attempt-cases local e st) [
        | inl kept ↦ rw kept h
        | inr handled ↦ elim h [
          | inl before ↦ inr (handled ∙ local e st first before)
          | inr after ↦ inr (handled ∙ local e st (handle e first).1 after ∙ again first)
        ]
      ])

  -- For a handler whose effect on the database depends on the database only and is the same when it
  -- is repeated: after any number of deliveries of an event, with Redis or without, whatever Redis
  -- answers and whatever the handler raises, the database is the one before the first delivery or
  -- the one after a single call of the handler.
  pub redelivery_lem :
      IsLocal
      → ((e : Envelope) (s : Store D R.State) → (handle e (handle e s).1).1.db ≡ (handle e s).1.db)
      → (n : ℕ) (e : Envelope) (st : Store D R.State)
      → ((deliver n e st).db ≡ st.db) ⊎ ((deliver n e st).db ≡ (handle e st).1.db)
  redelivery_lem local again n e st = delivered_lem local e st (again e) n st (inl refl)
