-- ===== src/Reviews/Lifecycle.antt =====
-- The life of a review: it is decided at most once, by another person than its initiator.
use regional_rate_limiter.Prelude.{
  String, Option, none, some, ◌≡◌, ◌≢◌, refl, sym, ap, ◌∙◌, ◌⊎◌, inl, inr, arith, eq_iff, eq_refl,
  Option-cases, String-cases, eq_of_ne, eq_of_some, ◌↔◌,
}
use regional_rate_limiter.Prelude.Dict
use regional_rate_limiter.Prelude.Dict.{get-put}
use regional_rate_limiter.Reviews.{
  PendingOp, pending, approved, rejected, Decision, approve, reject, Review, ReviewStore, decided,
  status_of, decide_found, with_decision, create, decide,
}

-- What a decision makes of a review, field by field.
abbrev pub outcome : Review → String → Decision → String → Review
outcome b approver approve now = record {
  id = b.id;
  op = b.op;
  reason = b.reason;
  initiator = b.initiator;
  status = approved;
  created_at = b.created_at;
  decided_by = some approver;
  decided_at = some now;
}
outcome b approver reject now = record {
  id = b.id;
  op = b.op;
  reason = b.reason;
  initiator = b.initiator;
  status = rejected;
  created_at = b.created_at;
  decided_by = some approver;
  decided_at = some now;
}

pub outcome_lem :
    (b : Review) (approver : String) (decision : Decision) (now : String)
    → with_decision b approver decision now ≡ outcome b approver decision now
outcome_lem b approver approve now = refl
outcome_lem b approver reject now = refl

-- `decide` succeeds on this review, and this is its result.
pub record Decides (id approver : String) (decision : Decision) (now : String) (store : ReviewStore)
    (r : Review) : Type 0 where
  pub before : Review
  pub found : Dict.get id store ≡ some before
  pub open_review : before.status ≡ pending
  pub other : before.initiator ≢ approver
  pub result : r ≡ outcome before approver decision now

module _ (id approver : String) (decision : Decision) (now : String) (store : ReviewStore) where
  found_sound :
      (b r : Review)
      → (decide_found b id approver decision now store).0 ≡ decided r
      → (b.status ≡ pending)
        × (b.initiator ≢ approver)
        × (r ≡ with_decision b approver decision now)
  unfolding decide_found
  found_sound b r h = (ground arith, ground (arith, eq_iff b.initiator approver), ground arith)

  pub found_complete :
      (b : Review)
      → b.status ≡ pending
      → b.initiator ≢ approver
      → decide_found b id approver decision now store ≡ (
        decided (with_decision b approver decision now),
        Dict.put id (with_decision b approver decision now) store,
      )
  unfolding decide_found
  found_complete b open_review other = rw (open_review, eq_of_ne _ _ other) refl

  -- A decision is taken exactly on a pending review, by another person than its initiator. The
  -- result is that review, approved or rejected as was decided, with that person as its decider and
  -- the time of the decision; its id, change, reason, initiator and creation time are as before.
  pub decide_iff :
      (r : Review)
      → ((decide id approver decision now store).0 ≡ decided r)
        ↔ Decides id approver decision now store r
  unfolding decide
  decide_iff r = (to (Dict.get id store) refl, from)
    where
      to :
          (o : Option Review)
          → Dict.get id store ≡ o
          → (decide id approver decision now store).0 ≡ decided r
          → Decides id approver decision now store r
      to none e h = absurd (ground arith)
      to (some b) e h =
          let (open_review, other, result) = found_sound b r (rw (e, decide) at h) in
          record {
            before = b;
            found = e;
            open_review = open_review;
            other = other;
            result = result ∙ outcome_lem b approver decision now;
          }

      from :
          Decides id approver decision now store r
          → (decide id approver decision now store).0 ≡ decided r
      from d =
          rw (d.found, decide)
            (rw
              (
                found_complete d.before d.open_review d.other,
                d.result,
                outcome_lem d.before approver decision now,
              )
              refl)

-- A run of the store: reviews are filed under ids that are not taken, and decisions are tried by
-- anyone at any time.
pub data Step (s t : ReviewStore) : Type 0 where
  files :
      (id : String) (op : PendingOp) (initiator reason now : String)
      → Dict.get id s ≡ none
      → t ≡ (create id op initiator reason now s).1
      → Step s t
  tries :
      (id approver : String) (decision : Decision) (now : String)
      → t ≡ (decide id approver decision now s).1
      → Step s t

pub data Reach (s : ReviewStore) : ReviewStore → Type 0 where
  here : Reach s s
  next : {t u : ReviewStore} → Reach s t → Step t u → Reach s u

-- What may become of a review: nothing, or one decision by another person.
pub data Progress (r r' : Review) : Type 0 where
  unchanged : r' ≡ r → Progress r r'
  settled :
      (approver : String) (decision : Decision) (now : String)
      → r.status ≡ pending
      → r.initiator ≢ approver
      → r' ≡ with_decision r approver decision now
      → Progress r r'

-- What `decide` does to the store: nothing, or one `put` of the decided review.
abbrev Settles : String → String → Decision → String → ReviewStore → Review → Type 0
Settles id approver decision now s b =
    (Dict.get id s ≡ some b)
    × (b.status ≡ pending)
    × (b.initiator ≢ approver)
    × ((decide id approver decision now s).1
        ≡ Dict.put id (with_decision b approver decision now) s)

module _ (id approver : String) (decision : Decision) (now : String) (s : ReviewStore) where
  decide_found_store :
      (b : Review)
      → Dict.get id s ≡ some b
      → ((decide_found b id approver decision now s).1 ≡ s)
        ⊎ ((b.status ≡ pending)
            × (b.initiator ≢ approver)
            × ((decide_found b id approver decision now s).1
                ≡ Dict.put id (with_decision b approver decision now) s))
  unfolding decide_found
  decide_found_store b h = ground (arith, eq_iff b.initiator approver)

  pub decide_store :
      ((decide id approver decision now s).1 ≡ s)
      ⊎ ((b : Review) × Settles id approver decision now s b)
  unfolding decide
  decide_store = elim (Option-cases (Dict.get id s)) [
    | inl missing ↦ inl (rw (missing, decide) refl)
    | inr (b, found) ↦ elim (decide_found_store b found) [
      | inl same ↦ inl (rw (found, decide) same)
      | inr (open_review, other, stored) ↦
          inr (b, (found, open_review, other, rw (found, decide) stored))
    ]
  ]

  get-decide :
      (j : String) (r : Review)
      → Dict.get j s ≡ some r
      → (r' : Review) × (Dict.get j (decide id approver decision now s).1 ≡ some r') × Progress r r'
  get-decide j r h = elim decide_store [
    | inl same ↦ (r, rw same h, unchanged refl)
    | inr (b, (found, open_review, other, stored)) ↦ elim (String-cases id j) [
      | inl e ↦
          let same : b ≡ r = eq_of_some (sym found ∙ rw (← e) at h) in
          (
            with_decision b approver decision now,
            rw stored (get-put id j _ s ∙ rw (e, eq_refl j) refl),
            settled approver decision now (rw (← same) open_review) (rw (← same) other)
                (rw same refl),
          )
      | inr ne ↦ (r, rw stored (get-put id j _ s ∙ rw (eq_of_ne id j ne) h), unchanged refl)
    ]
  ]

Step-Progress :
    {s t : ReviewStore} (j : String) (r : Review)
    → Step s t
    → Dict.get j s ≡ some r
    → (r' : Review) × (Dict.get j t ≡ some r') × Progress r r'
unfolding create
Step-Progress {s} j r (tries id approver decision now e) h =
    rw e (get-decide id approver decision now s j r h)
Step-Progress {s} j r (files id op initiator reason now fresh e) h = elim (String-cases id j) [
  | inl same ↦ absurd (ground (arith, rw same at fresh))
  | inr ne ↦ (r, rw e (get-put id j _ s ∙ rw (eq_of_ne id j ne) h), unchanged refl)
]

Progress_trans : (r r' r'' : Review) → Progress r r' → Progress r' r'' → Progress r r''
Progress_trans r r' r'' p (unchanged e) = rw e p
Progress_trans r r' r'' (unchanged e) (settled a d now open_review other e') =
    settled a d now (rw (← e) open_review) (rw (← e) other) (rw (← e) e')
Progress_trans r r' r'' (settled b c at p q e) (settled a d now open_review other e') =
    absurd (not_pending c (ap (λ (x : Review). x.status) (sym e) ∙ open_review))
  where
    not_pending : (c : Decision) → status_of c ≢ pending
    not_pending approve h = cc
    not_pending reject h = cc

-- However the store is used afterwards, a review stays in it, keeps its change, its reason and its
-- initiator, and is decided at most once, by another person than its initiator; a decided one
-- never changes again.
pub Reach-Progress :
    {s t : ReviewStore} (j : String) (r : Review)
    → Reach s t
    → Dict.get j s ≡ some r
    → (r' : Review) × (Dict.get j t ≡ some r') × Progress r r'
Reach-Progress j r here h = (r, h, unchanged refl)
Reach-Progress j r (next reach step) h =
    let (r', found, first) = Reach-Progress j r reach h in
    let (r'', found', second) = Step-Progress j r' step found in
    (r'', found', Progress_trans r r' r'' first second)
