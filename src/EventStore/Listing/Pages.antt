-- ===== src/EventStore/Listing/Pages.antt =====
-- Following the cursors of the events list, page after page.
use mathlib.Core.Option
use datha_platform.Base.{
  ℕ, zero, suc, ◌≤◌, ◌<◌, String, Bool, true, false, not, ◌==◌, List, [], ◌∷◌, ◌++◌, map, Option,
  none, some, arith, ltb, filter, take, length, last?, All, ◌≡◌, refl, sym, ap, ◌∙◌, Bool-cases,
  inl, inr,
}
use datha_platform.Base.Iso.{IsoDate}
use datha_platform.Base.Keyset.{
  drop, length-drop, take-drop, Untied-filter, Ordered, Untied, order_by, order_by-Ordered,
  filter-order_by, filter-drop,
}
use datha_platform.Base.Queries.{
  All-take, All-sort_by, All-filter, filter-All, All-last?, take-map, last?-map, length-map,
  length-take, take_all, take-take, last?-take, length-filter-le, length-sort_by, filter_all,
  All_of, map-map,
}
use datha_platform.Messenger.Result.{Result, ok, err, other_error, bad_input, ◌>>=◌}
use datha_platform.Messenger.Rows.{read_date}
use datha_platform.EventStore.Rows.{EventRow, read_event}
use datha_platform.EventStore.Cursors.{
  Base64url, EventCursor, encode_cursor, decode_cursor, decode_cursor-encode_cursor,
}
use datha_platform.EventStore.Listing.{
  EventQueryParams, Jsonb, Event, EventPage, Counted, count_capped, selects, key_of, comes_first,
  is_past, row_to_event, offset_of, cast_after, select_page, page_of, query_events,
}
use datha_platform.EventStore.Listing.Keys.{
  comes_first-Strict, IsNameable, key_first_trans, positive, filter-filter,
}

module _ (base64url : Base64url) (jsonb : Jsonb) (uuid : String → Option String) (iso : IsoDate)
    (params : EventQueryParams) (events : List EventRow) where
  abbrev query_after : Option EventCursor → Result EventPage
  query_after after = query_events base64url jsonb uuid iso (record params { after = after }) events

  -- A client that asks for the list and follows `nextCursor` until it is null, at most `fuel` times.
  unfoldable pub walk : ℕ → Option EventCursor → Result (List Event)
  walk zero after = err other_error
  walk (suc fuel) after = do
    page ← query_after after
    elim page.next_cursor [
      | none ↦ ok page.events
      | some raw ↦ elim (decode_cursor base64url iso raw) [
        | none ↦ err bad_input
        | some cursor ↦ walk fuel (some cursor) >>= λ rest. ok (page.events ++ rest)
      ]
    ]

  abbrev pub first : EventRow → EventRow → Bool
  first = comes_first params.order

  abbrev chosen : List EventRow
  chosen = filter (selects jsonb params) events

  -- The rows that a cursor leaves, in order, and how a row is shown.
  abbrev rest_of : Option (ℕ × String) → List EventRow
  rest_of cut = order_by first (filter (is_past params.order cut) chosen)

  abbrev pub shown : EventRow → Event
  shown r = row_to_event iso (read_event r)

  abbrev counted : Counted
  counted = count_capped chosen params.count_cap

  query_after-page :
      (after : Option EventCursor) (cut : Option (ℕ × String))
      → cast_after base64url jsonb uuid iso after ≡ ok cut
      → offset_of (record params { after = after }) ≡ 0
      → query_after after
        ≡ ok (
            page_of base64url jsonb uuid iso params counted
              (map read_event (take (suc params.limit) (rest_of cut))))
  unfolding query_events select_page selects page_of
  query_after-page after cut h k = ground (arith, h, k)

  shown-append :
      (xs ys : List EventRow)
      → map (row_to_event iso) (map read_event (xs ++ ys))
        ≡ map (row_to_event iso) (map read_event xs) ++ map (row_to_event iso) (map read_event ys)
  shown-append [] ys = refl
  shown-append (x ∷ xs) ys = ap (λ r. row_to_event iso (read_event x) ∷ r) (shown-append xs ys)

  module _ (untied : Untied first events) where
    chosen-Untied : Untied first chosen
    chosen-Untied = Untied-filter first (selects jsonb params) events untied

    rest-Ordered : (cut : Option (ℕ × String)) → Ordered first (rest_of cut)
    rest-Ordered cut =
        order_by-Ordered first (comes_first-Strict params.order)
          (filter (is_past params.order cut) chosen)
          (Untied-filter first (is_past params.order cut) chosen chosen-Untied)

    -- What the cursor of a row that the page shows last leaves: the rows that the page left.
    rest-drop :
        (cut : Option (ℕ × String)) (n : ℕ) (x : EventRow)
        → last? (take (suc n) (rest_of cut)) ≡ some x
        → rest_of (some (key_of x)) ≡ drop (suc n) (rest_of cut)
    rest-drop cut n x e =
        let s = comes_first-Strict params.order in
        let past : is_past params.order cut x ≡ true =
          All-last? (λ y. is_past params.order cut y ≡ true) (take (suc n) (rest_of cut)) x
            (All-take _ (suc n) (rest_of cut)
              (All-sort_by _ _ _ (filter-All (is_past params.order cut) chosen)))
            e in
        filter-order_by first s (first x) chosen chosen-Untied
        ∙ sym (
            filter-filter (is_past params.order cut) (first x) (order_by first chosen)
              (λ y h. past_trans cut x y past h))
        ∙ ap (filter (first x))
            (sym (filter-order_by first s (is_past params.order cut) chosen chosen-Untied))
        ∙ filter-drop first s n (rest_of cut) x (rest-Ordered cut) e
      where
        past_trans :
            (cut : Option (ℕ × String)) (x y : EventRow)
            → is_past params.order cut x ≡ true
            → first x y ≡ true
            → is_past params.order cut y ≡ true
        past_trans none x y h k = refl
        past_trans (some c) x y h k = key_first_trans params.order c (key_of x) (key_of y) h k

    -- The last page has no cursor.
    page_end :
        (rest : List EventRow)
        → length rest ≤ params.limit
        → page_of base64url jsonb uuid iso params counted
            (map read_event (take (suc params.limit) rest))
          ≡ record {
            events = map (row_to_event iso) (map read_event rest);
            total = counted.total;
            total_capped = counted.capped;
            next_cursor = none;
          }
    unfolding page_of
    page_end rest h =
        ground
          (arith, h, take_all (suc params.limit) rest (ground arith), length-map read_event rest)

    -- Any other has the cursor of its last row.
    page_more :
        (rest : List EventRow) (x : EventRow)
        → params.limit < length rest
        → last? (take params.limit rest) ≡ some x
        → page_of base64url jsonb uuid iso params counted
            (map read_event (take (suc params.limit) rest))
          ≡ record {
            events = map (row_to_event iso) (map read_event (take params.limit rest));
            total = counted.total;
            total_capped = counted.capped;
            next_cursor = some (
                encode_cursor base64url iso (record {
                  timestamp = iso.to_iso (read_event x).timestamp;
                  id = (read_event x).id;
                }));
          }
    unfolding page_of
    page_more rest x h e =
        let found = map read_event (take (suc params.limit) rest) in
        let cut : take params.limit found ≡ map read_event (take params.limit rest) =
          take-map read_event params.limit (take (suc params.limit) rest)
          ∙ ap (map read_event) (take-take params.limit rest) in
        let last : last? (map read_event (take params.limit rest)) ≡ some (read_event x) =
          last?-map read_event (take params.limit rest) ∙ ap (Option.map read_event) e in
        ground (
          arith,
          h,
          cut,
          last,
          length-map read_event (take (suc params.limit) rest),
          length-take (suc params.limit) rest,
        )

    module _ (m : ℕ) (limit : params.limit ≡ suc m) (nameable : All (IsNameable uuid) events) where
      -- The cursor of a row is accepted, and its casts give the row's own key.
      cast-cursor :
          (x : EventRow)
          → IsNameable uuid x
          → cast_after base64url jsonb uuid iso (
              some (record {
                timestamp = iso.to_iso (read_event x).timestamp;
                id = (read_event x).id;
              }))
            ≡ ok (some (key_of x))
      unfolding cast_after read_event
      cast-cursor x h =
          ground (arith, iso.cast-to_iso (read_date x.timestamp), h.canonical, h.whole)

      name_kept : (x : EventRow) → IsNameable uuid x → ((read_event x).id == "") ≡ false
      unfolding read_event
      name_kept x f = f.nonempty

      rest-IsNameable : (cut : Option (ℕ × String)) → All (IsNameable uuid) (rest_of cut)
      rest-IsNameable cut =
          All-sort_by (IsNameable uuid) _ _
            (All-filter (IsNameable uuid) _ chosen (All-filter (IsNameable uuid) _ events nameable))

      walk_rest :
          (fuel : ℕ) (after : Option EventCursor) (cut : Option (ℕ × String))
          → cast_after base64url jsonb uuid iso after ≡ ok cut
          → offset_of (record params { after = after }) ≡ 0
          → length (rest_of cut) < fuel
          → walk fuel after ≡ ok (map (row_to_event iso) (map read_event (rest_of cut)))
      unfolding walk
      walk_rest zero after cut casts start h = ground (arith, h)
      walk_rest (suc fuel) after cut casts start h =
          let rest = rest_of cut in
          let page = query_after-page after cut casts start in
          elim (Bool-cases (ltb params.limit (length rest))) [
            | inr e ↦ ground (arith, page, page_end rest (ground (arith, e)))
            | inl e ↦
                let (x, last') = last?-take m rest (ground (arith, e)) in
                let last : last? (take params.limit rest) ≡ some x =
                  ap (λ n. last? (take n rest)) limit ∙ last' in
                let fine =
                  All-last? (IsNameable uuid) (take params.limit rest) x
                    (All-take _ params.limit rest (rest-IsNameable cut)) last in
                let more = page_more rest x (ground (arith, e)) last in
                let c : EventCursor = record {
                  timestamp = iso.to_iso (read_event x).timestamp;
                  id = (read_event x).id;
                } in
                let back : decode_cursor base64url iso (encode_cursor base64url iso c) ≡ some c =
                  decode_cursor-encode_cursor base64url iso (read_event x).timestamp
                    (read_event x).id (name_kept x fine) in
                let left : rest_of (some (key_of x)) ≡ drop params.limit rest =
                  rest-drop cut m x last' ∙ ap (λ n. drop n rest) (sym limit) in
                let again =
                  walk_rest fuel (some c) (some (key_of x)) (cast-cursor x fine) refl
                    (ground (arith, h, e, ap length left, limit, length-drop params.limit rest)) in
                let joined =
                  sym (shown-append (take params.limit rest) (drop params.limit rest))
                  ∙ ap (λ r. map (row_to_event iso) (map read_event r))
                      (take-drop params.limit rest) in
                ground (
                  arith,
                  page,
                  more,
                  back,
                  again,
                  ap (λ r. map (row_to_event iso) (map read_event r)) left,
                  joined,
                )
          ]

    -- When the limit is positive and the offset zero, no two events have one key, and each has an id
    -- that the cast to uuid keeps and a time of whole milliseconds: following the cursors from the first
    -- page gives every selected event once, in order, and comes to the end, for which one page more than
    -- there are events is always enough.
    pub walk-order_by :
        0 < params.limit
        → All (IsNameable uuid) events
        → params.offset ≡ 0
        → walk (suc (length events)) none
          ≡ ok (map shown (order_by first (filter (selects jsonb params) events)))
    unfolding cast_after
    walk-order_by limit nameable offset =
        let (m, exact) = positive params.limit limit in
        let everything : filter (is_past params.order none) chosen ≡ chosen =
          filter_all (is_past params.order none) chosen (All_of (λ x. refl) chosen) in
        let size : length (rest_of none) < suc (length events) = ground (
          arith,
          length-sort_by (λ x y. not (first y x)) (filter (is_past params.order none) chosen),
          ap length everything,
          length-filter-le (selects jsonb params) events,
        ) in
        walk_rest m exact nameable (suc (length events)) none none refl offset size
        ∙ ap (λ r. ok (map (row_to_event iso) (map read_event (order_by first r)))) everything
        ∙ ap ok (map-map (row_to_event iso) read_event (order_by first chosen))
