-- ===== src/Messaging/Relay.antt =====
-- The relay neither loses nor reorders the events of an outbox.
use myblog.Kernel.UnitOfWork.{OutboxMessage}
use myblog.Base.{
  ℕ, List, unique, Text, update_at, ◌≡◌, ◌∷◌, has_key, true, [], arith, list_eq, number_eq,
  string_eq, option_eq, refl, ◌++◌, inl, inr, unique-update_at, append_assoc, drop, ◌∙◌, take, sym,
  take-drop,
}
use myblog.Base.{==_refl, Bool-cases, if◌then◌else◌, ◌==◌, length, ◌≤◌, ◌+◌, subst, length-append}
use myblog.Kernel.Events.{Instant}
use myblog.Messaging.Outbox.{
  pending, message_key, attempted, published, Publisher, Commit, IsLawful, publish_rows,
  publish_pending,
}
use myblog.Kernel.Errors.{ok, Result-cases}

abbrev pub event_ids : List OutboxMessage → List Text
event_ids [] = []
event_ids (m ∷ rows) = m.event_id ∷ event_ids rows

has_key-pending :
    (rows ps : List OutboxMessage) (m : OutboxMessage)
    → pending rows ≡ m ∷ ps
    → has_key message_key m.id rows ≡ true
has_key-pending [] ps m h = cc
has_key-pending (x ∷ rows) ps m h = ground (arith, has_key-pending rows ps m)

pending-published :
    (now : Instant) (rows ps : List OutboxMessage) (m : OutboxMessage)
    → unique message_key rows ≡ true
    → pending rows ≡ m ∷ ps
    → pending (update_at message_key m.id (published now) rows) ≡ ps
pending-published now [] ps m u h = cc
pending-published now (x ∷ rows) ps m u h =
    ground (arith, pending-published now rows ps m, has_key-pending rows ps m)

event_ids-attempted :
    (k : ℕ) (rows : List OutboxMessage)
    → event_ids (pending (update_at message_key k attempted rows)) ≡ event_ids (pending rows)
event_ids-attempted k [] = refl
event_ids-attempted k (x ∷ rows) = ground (arith, event_ids-attempted k rows)

-- What is confirmed, followed by what is pending.
abbrev pub events : (P : Publisher) → List OutboxMessage × P.State → List Text
events P (rows, s) = P.confirmed s ++ event_ids (pending rows)

-- The same events, where one that follows itself directly counts once.
abbrev pub squeezed_onto : Text → List Text → List Text
squeezed_onto x [] = x ∷ []
squeezed_onto x (y ∷ ys) = if x == y then y ∷ ys else x ∷ y ∷ ys

abbrev pub squeeze : List Text → List Text
squeeze [] = []
squeeze (x ∷ xs) = squeezed_onto x (squeeze xs)

squeezed_onto_twice :
    (x : Text) (l : List Text) → squeezed_onto x (squeezed_onto x l) ≡ squeezed_onto x l
squeezed_onto_twice x [] = rw (==_refl x) refl
squeezed_onto_twice x (y ∷ ys) = elim (Bool-cases (x == y)) [
  | inl same ↦ rw (same, same) refl
  | inr other ↦ rw (other, ==_refl x) refl
]

squeeze-again :
    (xs : List Text) (x : Text) (ys : List Text)
    → squeeze (xs ++ x ∷ x ∷ ys) ≡ squeeze (xs ++ x ∷ ys)
squeeze-again [] x ys = squeezed_onto_twice x (squeeze ys)
squeeze-again (y ∷ xs) x ys = rw (squeeze-again xs x ys) refl

-- At most so many more events, and those repeat the one before them.
pub record Repeats (n : ℕ) (before after : List Text) : Type 0 where
  pub same_events : squeeze after ≡ squeeze before
  pub no_fewer : length before ≤ length after
  pub few_more : length after ≤ length before + n

pub Repeats-refl : (n : ℕ) (l : List Text) → Repeats n l l
Repeats-refl n l = record { same_events = refl; no_fewer = omega arith; few_more = omega arith }

Repeats-again :
    (xs : List Text) (x : Text) (ys : List Text)
    → Repeats 1 (xs ++ x ∷ ys) ((xs ++ x ∷ []) ++ x ∷ ys)
Repeats-again xs x ys =
    let one = length-append xs (x ∷ ys) in
    let two = length-append xs (x ∷ x ∷ ys) in
    rw (append_assoc xs (x ∷ []) (x ∷ ys)) (record {
      same_events = squeeze-again xs x ys;
      no_fewer = omega (arith, one, two);
      few_more = omega (arith, one, two);
    })

pub Repeats-trans :
    {a b : ℕ} {l m n : List Text} → Repeats a l m → Repeats b m n → Repeats (b + a) l n
Repeats-trans h k = record {
  same_events = k.same_events ∙ h.same_events;
  no_fewer = let a = h.no_fewer in let b = k.no_fewer in omega (arith, a, b);
  few_more = let a = h.few_more in let b = k.few_more in omega (arith, a, b);
}

module _ (P : Publisher) (lawful : IsLawful P) (commit : Commit P) (clock : ℕ → Instant) where
  publish_rows_lem :
      (batch rest rows : List OutboxMessage) (s : P.State)
      → unique message_key rows ≡ true
      → pending rows ≡ batch ++ rest
      → let (r, st) = publish_rows P commit clock batch (rows, s) in
        Repeats 1 (events P (rows, s)) (events P st)
        × (r ≡ ok tt → (events P st ≡ events P (rows, s)) × (pending (st.0) ≡ rest))
  unfolding publish_rows
  publish_rows_lem [] rest rows s u h = (Repeats-refl 1 (events P (rows, s)), λ _. (refl, h))
  publish_rows_lem (m ∷ batch) rest rows s u h =
      let s' = (P.publish m.event_type m.payload m.event_id s).1 in
      let marked = update_at message_key m.id (published (clock m.id)) rows in
      let counted = update_at message_key m.id attempted rows in
      elim (Result-cases (P.publish m.event_type m.payload m.event_id s).0) [
        | inl (t, sent) ↦ elim (Result-cases (commit marked s')) [
          | inl (t', kept) ↦
              let now_pending = pending-published (clock m.id) rows (batch ++ rest) m u h in
              let later =
                publish_rows_lem batch rest marked s'
                  (rw (unique-update_at message_key m.id (published (clock m.id)) (λ x. refl) rows)
                    u)
                  now_pending in
              let same : events P (marked, s') ≡ events P (rows, s) =
                rw (lawful.returns _ _ _ s sent, now_pending, h)
                  (append_assoc (P.confirmed s) (m.event_id ∷ []) (event_ids (batch ++ rest))) in
              rw (sent, kept)
                (
                  subst
                      (λ l.
                        Repeats 1 l (events P (publish_rows P commit clock batch (marked, s')).1))
                      same (later.0),
                  λ fine. let (all, none_left) = later.1 fine in (all ∙ same, none_left),
                )
          | inr (e, rolled_back) ↦
              rw (sent, rolled_back, lawful.returns _ _ _ s sent, h)
                (
                  Repeats-again (P.confirmed s) m.event_id (event_ids (batch ++ rest)),
                  λ impossible. cc,
                )
        ]
        | inr (e, lost) ↦ elim (Result-cases (commit counted s')) [
          | inl (t', kept) ↦
              rw (lost, kept, lawful.raises _ _ _ s e lost, event_ids-attempted m.id rows)
                (Repeats-refl 1 (events P (rows, s)), λ impossible. cc)
          | inr (e', rolled_back) ↦
              rw (lost, rolled_back, lawful.raises _ _ _ s e lost)
                (Repeats-refl 1 (events P (rows, s)), λ impossible. cc)
        ]
      ]

  -- With unique identifiers and a publisher that returns when the broker confirms and raises when it
  -- does not, whatever the commits do: the events that are confirmed, followed by those that are
  -- pending, are the same sequence before and after, where an event that directly follows itself
  -- counts once, and they are as many or one more, when the commit after a confirmed message failed.
  -- If the call answers, the two sequences are equal, and exactly the first `batch_size` of the
  -- pending rows are no longer pending.
  pub relay_lem :
      (batch_size : ℕ) (rows : List OutboxMessage) (s : P.State)
      → unique message_key rows ≡ true
      → let (r, st) = publish_pending P commit clock batch_size (rows, s) in
        Repeats 1 (events P (rows, s)) (events P st)
        × ((k : ℕ)
            → r ≡ ok k
            → (events P st ≡ events P (rows, s))
              × (pending (st.0) ≡ drop batch_size (pending rows)))
  unfolding publish_pending
  relay_lem n rows s u =
      let done =
        publish_rows_lem (take n (pending rows)) (drop n (pending rows)) rows s u
          (sym (take-drop n (pending rows))) in
      elim (Result-cases (publish_rows P commit clock (take n (pending rows)) (rows, s)).0) [
        | inl (t, fine) ↦ rw fine (done.0, λ k _. done.1 fine)
        | inr (e, wrong) ↦ rw wrong (done.0, λ k impossible. cc)
      ]
