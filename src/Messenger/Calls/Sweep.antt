-- ===== src/Messenger/Calls/Sweep.antt =====
-- The sweep against the bound that every read applies: "one rule governs both".
use datha_platform.Base.{
  ◌≢◌, ◌⊎◌, ℕ, ◌≤◌, String, Bool, List, [], ◌∷◌, map, none, ◌≡◌, refl, arith, ◌==◌, filter, take,
  sort_by, leb, All, All-map, ◌∙◌, ap,
}
use datha_platform.Base.Iso.{IsoDate}
use datha_platform.Base.Queries.{
  All-filter, All-sort_by, All-take, map_congr, take-map, filter-map, sort_by-map, map-map,
}
use datha_platform.Messenger.Rows.{CallRow, Db, read_call, read_date}
use datha_platform.Messenger.Wire.{Call, settle_stale_call, to_call}
use datha_platform.Messenger.Calls.{
  hydrate_call, settled, newest_first, sweep_row, sweep_stale_calls, list_conversation_calls,
}

-- A call is over, or has no duration yet.
abbrev pub IsOpenAtZero : CallRow → Type 0
IsOpenAtZero c = (c.ended_at ≢ none) ⊎ (c.duration_seconds ≡ 0)

-- A row swept at one instant reads, from that instant on, as the row would have read unswept.
pub settle-sweep_row :
    (row : CallRow) (lifetime now later : ℕ)
    → IsOpenAtZero row
    → read_date now ≤ later
    → settle_stale_call (read_call (sweep_row lifetime now row)) lifetime later
      ≡ settle_stale_call (read_call row) lifetime later
unfolding settle_stale_call read_call sweep_row
settle-sweep_row row lifetime now later at_zero h = ground arith

module _ (collate : String → String → Bool) (iso : IsoDate) (lifetime now later : ℕ) (db : Db) where
  abbrev sweep : CallRow → CallRow
  sweep = sweep_row lifetime now

  abbrev reader : CallRow → Call
  reader row = to_call iso (settled lifetime later (read_call row))

  keeps_conversation :
      (id : String) (c : CallRow) → ((sweep c).conversation_id == id) ≡ (c.conversation_id == id)
  unfolding sweep_row
  keeps_conversation id c = ground arith

  keeps_start :
      (a b : CallRow)
      → leb (sweep b).started_at (sweep a).started_at ≡ leb b.started_at a.started_at
  unfolding sweep_row
  keeps_start a b = ground arith

  hydrate-sweep :
      (c : CallRow) → hydrate_call collate db (sweep c) ≡ sweep (hydrate_call collate db c)
  unfolding hydrate_call sweep_row
  hydrate-sweep c = ground arith

  hydrate-IsOpenAtZero :
      (rows : List CallRow)
      → All IsOpenAtZero rows
      → All IsOpenAtZero (map (hydrate_call collate db) rows)
  unfolding hydrate_call
  hydrate-IsOpenAtZero [] h = tt
  hydrate-IsOpenAtZero (c ∷ rows) h = (h.0, hydrate-IsOpenAtZero rows h.1)

  hydrate-map-sweep :
      (rows : List CallRow)
      → map (hydrate_call collate db) (map sweep rows)
        ≡ map sweep (map (hydrate_call collate db) rows)
  hydrate-map-sweep [] = refl
  hydrate-map-sweep (c ∷ rows) = λ i. hydrate-sweep c i ∷ hydrate-map-sweep rows i

  -- The sweep is invisible: every list of a conversation's calls read from the sweep's instant on
  -- is the list that would have been read without it, if no open call has a duration.
  pub list_conversation_calls-sweep :
      (conversation_id : String) (limit : ℕ)
      → All IsOpenAtZero db.calls
      → read_date now ≤ later
      → list_conversation_calls collate lifetime later iso
          (sweep_stale_calls lifetime now db).0
          conversation_id
          limit
        ≡ list_conversation_calls collate lifetime later iso db conversation_id limit
  unfolding list_conversation_calls sweep_stale_calls
  list_conversation_calls-sweep id limit at_zero h =
      let chosen = filter (λ c. c.conversation_id == id) db.calls in
      let rows = map (hydrate_call collate db) chosen in
      let page = take limit (sort_by newest_first rows) in
      ap (λ r. map reader (take limit (sort_by newest_first (map (hydrate_call collate db) r))))
        (filter-map sweep _ _ (keeps_conversation id) db.calls)
      ∙ ap (λ r. map reader (take limit (sort_by newest_first r))) (hydrate-map-sweep chosen)
      ∙ ap (λ r. map reader (take limit r)) (sort_by-map sweep _ _ keeps_start rows)
      ∙ ap (map reader) (take-map sweep limit (sort_by newest_first rows))
      ∙ map-map reader sweep page
      ∙ map_congr _ _ page (
          All-map same_reading page (
            All-take IsOpenAtZero limit (sort_by newest_first rows) (
              All-sort_by IsOpenAtZero newest_first rows
                (hydrate-IsOpenAtZero chosen (All-filter IsOpenAtZero _ db.calls at_zero)))))
    where
      same_reading : (c : CallRow) → IsOpenAtZero c → reader (sweep c) ≡ reader c
      same_reading c z =
          ap (to_call iso) (unfold settled in settle-sweep_row c lifetime now later z h)
