-- ===== src/Checkins/Admission.antt =====
-- Which tickets a gate decides to admit.
use ticketflow_kenya.Base.{
  ℕ, suc, ◌≡◌, refl, ap, ◌∙◌, Bool, true, false, not, ◌&&◌, ◌||◌, List, [], ◌∷◌, some, ◌==◌, ==_iff,
  if◌then◌else◌, inl, inr, Bool-cases, Option-cases,
}
use ticketflow_kenya.Base.Tables.{row_at}
use ticketflow_kenya.Orders.{is_paid}
use ticketflow_kenya.Checkins.{
  RecordId, Ticket, Store, Request, fail, reject, claim, is_active, is_qr, verify_qr_signature,
  decide_ticket, decide, find_code, has_check_in, wrong_event, bad_signature, unpaid, already_used,
  CheckInError,
}

-- The ticket may be admitted for the request.
pub record IsAdmissible (sign : ℕ → RecordId → ℕ) (r : Request) (id : RecordId) (t : Ticket)
    (s : Store) : Type 0 where
  managed : s.organizers r.event_id ≡ some r.scanned_by
  stored : row_at id s.tickets ≡ some t
  code : t.ticket_code ≡ r.ticket_code
  at_event : t.order_event_id ≡ r.event_id
  signed :
      (is_qr r.method
        && not (verify_qr_signature sign t.ticket_code r.event_id r.signature t.qr_signature))
      ≡ false
  is_paid_for : is_paid t.order_status ≡ true
  fresh : has_check_in id s.check_ins ≡ false
  is_valid : is_active t.status ≡ true

find_code-row :
    (code : ℕ) (ts : List Ticket) (id : RecordId) (t : Ticket)
    → find_code code ts ≡ some (id, t)
    → (row_at id ts ≡ some t) × (t.ticket_code ≡ code)
unfolding find_code
find_code-row code [] id t h = cc
find_code-row code (u ∷ ts) id t h = elim (Bool-cases (u.ticket_code == code)) [
  | inl e ↦
      let found : some (0, u) ≡ some (id, t) = rw e at h in
      let same_id : 0 ≡ id = cc found in
      let same : u ≡ t = cc found in rw (← same_id, ← same) (refl, (==_iff u.ticket_code code).0 e)
  | inr e ↦ elim (Option-cases (find_code code ts)) [
    | inl missing ↦ cc (rw (e, missing) at h)
    | inr ((i, v), there) ↦
        let found : some (suc i, v) ≡ some (id, t) = rw (e, there) at h in
        let same_id : suc i ≡ id = cc found in
        let same : v ≡ t = cc found in rw (← same_id, ← same) (find_code-row code ts i v there)
  ]
]

checks_passed :
    (a b c d e f : Bool) (id k : RecordId) (error : CheckInError)
    → (if not a
        then reject id wrong_event
        else if b
        then reject id bad_signature
        else if not c
        then reject id unpaid
        else if d || e
        then reject id already_used
        else if not f
        then fail error
        else claim id)
      ≡ claim k
    → (a ≡ true) × (b ≡ false) × (c ≡ true) × (e ≡ false) × (f ≡ true) × (id ≡ k)
checks_passed false b c d e f id k error h = cc
checks_passed true true c d e f id k error h = cc
checks_passed true false false d e f id k error h = cc
checks_passed true false true true e f id k error h = cc
checks_passed true false true false true f id k error h = cc
checks_passed true false true false false false id k error h = cc
checks_passed true false true false false true id k error h = (refl, refl, refl, refl, refl, cc h)

-- When a gate decides to claim a ticket, the scanning user manages the event, the ticket with the
-- scanned code is stored under the claimed id, belongs to the event, carries a valid signature if it
-- was scanned by QR code, is paid for, is active and has no check-in.
pub decide-IsAdmissible :
    (sign : ℕ → RecordId → ℕ) (r : Request) (s : Store) (k : RecordId)
    → decide sign r s ≡ claim k
    → (t : Ticket) × IsAdmissible sign r k t s
unfolding decide decide_ticket
decide-IsAdmissible sign r s k h = elim (Option-cases (s.organizers r.event_id)) [
  | inl e ↦ cc (rw e at h)
  | inr (owner, e) ↦ elim (Bool-cases (owner == r.scanned_by)) [
    | inr other ↦ cc (rw (e, other) at h)
    | inl owns ↦ elim (Option-cases (find_code r.ticket_code s.tickets)) [
      | inl missing ↦ cc (rw (e, owns, missing) at h)
      | inr ((id, t), there) ↦
          let (a, b, c, d, f, same) = checks_passed _ _ _ _ _ _ _ _ _ (rw (e, owns, there) at h) in
          let (row, code) = find_code-row r.ticket_code s.tickets id t there in
          let me : owner ≡ r.scanned_by = (==_iff owner r.scanned_by).0 owns in
          (
            t,
            rw (← same) (record {
              managed = e ∙ ap (λ x. some x) me;
              stored = row;
              code = code;
              at_event = (==_iff t.order_event_id r.event_id).0 a;
              signed = b;
              is_paid_for = c;
              fresh = d;
              is_valid = f;
            }),
          )
    ]
  ]
]
