-- ===== src/ChatStore/Calls/Banner.antt =====
-- A call that the socket has ended is offered no more.
use datha_platform.Base.{
  String, true, false, not, ◌&&◌, ◌||◌, ◌==◌, List, Option, some, any, ◌≡◌, sym, arith, Bool-cases,
  inl, inr, eq_refl, eq_iff, find-IsTrue, subst,
}
use datha_platform.Messenger.Calls.{contains}
use datha_platform.ChatStore.Calls.{
  CallRecord, CallState, calls_of, is_call, truthless, ongoing_call_of, load_calls, mark_call_ended,
  apply_call_participants, on_incoming, on_ended,
}

-- What may happen to the calls of a session.
pub data Happens : CallState → CallState → Type 0 where
  fetches :
      (id : String) (calls : List CallRecord) (s : CallState) → Happens s (load_calls id calls s)
  joins :
      (call_id : String) (joined : List String) (s : CallState)
      → Happens s (apply_call_participants call_id joined s)
  rings : (id call_id : String) (s : CallState) → Happens s (on_incoming id call_id s)
  hangs_up : (call_id : String) (s : CallState) → Happens s (on_ended call_id s).1

pub data Passes : CallState → CallState → Type 0 where
  now : (s : CallState) → Passes s s
  later : (s t u : CallState) → Happens s t → Passes t u → Passes s u

mark_call_ended-keeps :
    (k call_id : String) (s : CallState)
    → contains s.ended_calls k ≡ true
    → contains (mark_call_ended call_id s).ended_calls k ≡ true
unfolding mark_call_ended any
mark_call_ended-keeps k call_id s h = elim (Bool-cases (contains s.ended_calls call_id)) [
  | inl e ↦ rw e h
  | inr e ↦ rw e (ground (arith, h))
]

Happens-keeps :
    (k : String) (s t : CallState)
    → Happens s t
    → contains s.ended_calls k ≡ true
    → contains t.ended_calls k ≡ true
unfolding load_calls apply_call_participants on_incoming on_ended
Happens-keeps k s _ (fetches id calls _) h = h
Happens-keeps k s _ (joins call_id joined _) h = h
Happens-keeps k s _ (rings id call_id _) h = elim (Bool-cases (id == "" || call_id == "")) [
  | inl e ↦ rw e h
  | inr e ↦ rw e h
]
Happens-keeps k s _ (hangs_up call_id _) h = elim (Bool-cases (call_id == "")) [
  | inl e ↦ rw e h
  | inr e ↦ rw e (mark_call_ended-keeps k call_id s h)
]

Passes-keeps :
    (k : String) (s t : CallState)
    → Passes s t
    → contains s.ended_calls k ≡ true
    → contains t.ended_calls k ≡ true
Passes-keeps k s _ (now _) h = h
Passes-keeps k s u (later _ t _ one rest) h = Passes-keeps k t u rest (Happens-keeps k s t one h)

on_ended-marks :
    (k : String) (s : CallState)
    → (k == "") ≡ false
    → contains (on_ended k s).1.ended_calls k ≡ true
unfolding on_ended mark_call_ended any
on_ended-marks k s h = elim (Bool-cases (contains s.ended_calls k)) [
  | inl e ↦ rw (h, e) e
  | inr e ↦ rw (h, e) (ground (arith, eq_refl k))
]

-- From the frame `call.ended` on, whatever is fetched, joined, rung or ended afterwards, no thread
-- offers the call as ongoing, even if the history still has it open.
pub ongoing_call_of-on_ended :
    (k : String) (s t : CallState) (live : Option String) (id : String) (offered : CallRecord)
    → (k == "") ≡ false
    → Passes (on_ended k s).1 t
    → ongoing_call_of live id t ≡ some offered
    → (offered.id == k) ≡ false
unfolding ongoing_call_of
ongoing_call_of-on_ended k s t live id offered named since found =
    let marked = Passes-keeps k (on_ended k s).1 t since (on_ended-marks k s named) in
    let passed =
      find-IsTrue
        (λ c. truthless c.ended_at && not (is_call live c.id) && not (contains t.ended_calls c.id))
        (calls_of id t) offered found in
    elim (Bool-cases (offered.id == k)) [
      | inl e ↦
          let there =
            subst (λ w. contains t.ended_calls w ≡ true) (sym ((eq_iff offered.id k).0 e)) marked in
          ground (arith, there, passed)
      | inr e ↦ e
    ]
