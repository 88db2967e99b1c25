-- ===== src/Checkins/Once.antt =====
-- Check-ins that several gates write at the same time.
use ticketflow_kenya.Base.{
  ℕ, zero, suc, ◌+◌, ◌≤◌, ◌≡◌, refl, sym, ◌∙◌, true, false, List, [], ◌∷◌, ◌++◌, some, ◌==◌, ==_iff,
  if◌then◌else◌, inl, inr, Bool-cases, Option-cases, arith,
}
use ticketflow_kenya.Base.Tables.{row_at, put_at, row_at-put_at}
use ticketflow_kenya.Checkins.{
  RecordId, TicketStatus, Ticket, CheckIn, Store, Request, Decision, fail, reject, claim, is_active,
  finish, new_check_in,
}

-- How many check-ins a ticket has.
unfoldable pub check_in_count : RecordId → List CheckIn → ℕ
check_in_count id [] = 0
check_in_count id (c ∷ cs) = (if c.ticket_id == id then 1 else 0) + check_in_count id cs

abbrev pub admissions : TicketStatus → ℕ
admissions TicketStatus.used = 1
admissions _ = 0

-- A ticket has at most one check-in, and only when it is USED.
abbrev pub IsOnce : Store → Type 0
IsOnce s =
    (id : RecordId) (t : Ticket)
    → row_at id s.tickets ≡ some t
    → check_in_count id s.check_ins ≤ admissions t.status

count-snoc :
    (id : RecordId) (cs : List CheckIn) (c : CheckIn)
    → check_in_count id (cs ++ c ∷ []) ≡ check_in_count id cs + (if c.ticket_id == id then 1 else 0)
unfolding check_in_count
count-snoc id [] c = omega arith
count-snoc id (d ∷ cs) c = omega (arith, count-snoc id cs c)

put_at-other :
    (i k : ℕ) (new : Ticket) (ts : List Ticket)
    → (i == k) ≡ false
    → row_at k (put_at i new ts) ≡ row_at k ts
put_at-other i k new [] h = refl
put_at-other zero zero new (t ∷ ts) h = cc
put_at-other zero (suc k) new (t ∷ ts) h = refl
put_at-other (suc i) zero new (t ∷ ts) h = refl
put_at-other (suc i) (suc k) new (t ∷ ts) h = put_at-other i k new ts (ground arith)

active_admits_none : (st : TicketStatus) → is_active st ≡ true → admissions st ≡ 0
active_admits_none TicketStatus.active h = refl
active_admits_none TicketStatus.used h = cc
active_admits_none TicketStatus.cancelled h = refl
active_admits_none TicketStatus.refunded h = refl

claim-IsOnce :
    (r : Request) (id : RecordId) (s : Store) (u : Ticket)
    → row_at id s.tickets ≡ some u
    → is_active u.status ≡ true
    → IsOnce s
    → IsOnce (record s {
      tickets = put_at id (record u { status = TicketStatus.used }) s.tickets;
      check_ins = s.check_ins ++ new_check_in r id ∷ [];
    })
claim-IsOnce r id s u here active once k t h = elim (Bool-cases (id == k)) [
  | inl e ↦
      let same : id ≡ k = (==_iff id k).0 e in
      let now : some (record u { status = TicketStatus.used }) ≡ some t =
        sym (row_at-put_at id (record u { status = TicketStatus.used }) s.tickets here)
        ∙ rw (← same) at h in
      let row : record u { status = TicketStatus.used } ≡ t = cc now in
      let before : check_in_count k s.check_ins ≤ 0 =
        rw (active_admits_none u.status active) at (once k u (rw same at here)) in
      rw (← row, count-snoc k s.check_ins, e) (omega (arith, before))
  | inr e ↦
      rw (count-snoc k s.check_ins, e)
        (omega (
          arith,
          once k t
              (rw (put_at-other id k (record u { status = TicketStatus.used }) s.tickets e) at h),
        ))
]

finish-IsOnce : (r : Request) (d : Decision) (s : Store) → IsOnce s → IsOnce (finish r d s).1
unfolding finish
finish-IsOnce r (fail e) s once = once
finish-IsOnce r (reject id reason) s once = once
finish-IsOnce r (claim id) s once = elim (Option-cases (row_at id s.tickets)) [
  | inl e ↦ rw e once
  | inr (u, here) ↦ elim (Bool-cases (is_active u.status)) [
    | inl active ↦ rw (here, active) (claim-IsOnce r id s u here active once)
    | inr other ↦ rw (here, other) once
  ]
]

-- The gates' calls in the order in which they write, each with what it decided earlier.
unfoldable pub finish_all : List (Request × Decision) → Store → Store
finish_all [] s = s
finish_all ((r, d) ∷ rest) s = finish_all rest (finish r d s).1

-- Whatever several gates decided on their snapshots, and in whatever order they then write: from
-- tables where every ticket has at most one check-in, and none unless it is USED, the same holds
-- after all of them.
pub finish_all-IsOnce :
    (calls : List (Request × Decision)) (s : Store) → IsOnce s → IsOnce (finish_all calls s)
unfolding finish_all
finish_all-IsOnce [] s once = once
finish_all-IsOnce ((r, d) ∷ rest) s once =
    finish_all-IsOnce rest (finish r d s).1 (finish-IsOnce r d s once)
