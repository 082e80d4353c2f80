-- ===== src/ChatStore/Threads/Pages.antt =====
-- The rows of a thread under setThread: a page that covers it, and a change of its last row.
use datha_platform.Base.{
  String, Bool, true, false, not, ◌==◌, List, [], ◌∷◌, ◌++◌, map, Option, none, some, filter, any,
  or_default, All, All-map, ◌≡◌, refl, sym, ap, ◌∙◌, subst, arith, eq_refl,
}
use datha_platform.Base.Iso.{IsoDate}
use datha_platform.Base.Queries.{filter_none, any-last}
use datha_platform.Messenger.Calls.{contains}
use datha_platform.ChatStore.Threads.{
  ThreadMessage, ThreadMap, is_fetched, merge_local, set_thread, set_mapped, existing_or,
}

pub map-append_one :
    {A B : Type 0} (f : A → B) (xs : List A) (y : A) → map f (xs ++ y ∷ []) ≡ map f xs ++ f y ∷ []
map-append_one f [] y = refl
map-append_one f (x ∷ xs) y = ap (λ r. f x ∷ r) (map-append_one f xs y)

pub map_unchanged : {A : Type 0} (f : A → A) (xs : List A) → All (λ x. f x ≡ x) xs → map f xs ≡ xs
map_unchanged f [] h = refl
map_unchanged f (x ∷ xs) h = ground (arith, h.0, map_unchanged f xs h.1)

-- A page that has every row of the thread replaces it.
pub set_thread-covers :
    (iso : IsoDate) (id : String) (messages existing : List ThreadMessage) (threads : ThreadMap)
    → threads id ≡ some existing
    → All (λ m. is_fetched messages m ≡ true) existing
    → set_thread iso id messages threads id ≡ some messages
unfolding set_thread
set_thread-covers iso id messages existing threads h covered =
    let nothing : filter (λ m. not (is_fetched messages m)) (or_default (threads id) []) ≡ [] =
      ap (λ o. filter (λ m. not (is_fetched messages m)) (or_default o [])) h
      ∙ filter_none (λ m. not (is_fetched messages m)) existing
          (All-map (λ m f. ap not f) existing covered) in
    rw (eq_refl id) (ap (λ l. some (merge_local iso messages l)) nothing)

-- Rows that stand in front of another are fetched with it.
pub fetched-front :
    (last : ThreadMessage) (messages : List ThreadMessage)
    → All (λ m. is_fetched (messages ++ last ∷ []) m ≡ true) messages
unfolding any
fetched-front last [] = tt
fetched-front last (x ∷ messages) = (
  rw (eq_refl x.id) refl,
  All-map (λ m f. ground (arith, f)) messages (fetched-front last messages),
)

pub fetched-last :
    (last m : ThreadMessage) (messages : List ThreadMessage)
    → m.client_message_id ≡ last.client_message_id
    → is_fetched (messages ++ last ∷ []) m ≡ true
unfolding any
fetched-last last m messages h =
    let found : contains (map (λ f. f.client_message_id) (messages ++ last ∷ []))
          m.client_message_id
        ≡ true =
      ap (λ l. contains l m.client_message_id)
        (map-append_one (λ f. f.client_message_id) messages last)
      ∙ any-last (λ c. c == m.client_message_id) (map (λ f. f.client_message_id) messages)
          last.client_message_id
          (subst (λ c. (last.client_message_id == c) ≡ true) (sym h)
            (eq_refl last.client_message_id)) in
    ground (arith, found)

pub All-snoc :
    {A : Type 0} (P : A → Type 0) (xs : List A) (y : A) → All P xs → P y → All P (xs ++ y ∷ [])
All-snoc P [] y h k = (k, tt)
All-snoc P (x ∷ xs) y h k = (h.0, All-snoc P xs y h.1 k)

pub any_none :
    {A : Type 0} (p : A → Bool) (xs : List A) → All (λ x. p x ≡ false) xs → any p xs ≡ false
unfolding any
any_none p [] h = refl
any_none p (x ∷ xs) h = ground (arith, h.0, any_none p xs h.1)

-- A rewrite that concerns only the last row of a thread.
pub set_mapped-last :
    (iso : IsoDate) (id : String) (f : ThreadMessage → ThreadMessage)
    (messages : List ThreadMessage) (last next : ThreadMessage) (threads : ThreadMap)
    → threads id ≡ some (messages ++ last ∷ [])
    → All (λ m. f m ≡ m) messages
    → f last ≡ next
    → last.client_message_id ≡ next.client_message_id
    → set_mapped iso id f (threads id) threads id ≡ some (messages ++ next ∷ [])
set_mapped-last iso id f messages last next threads h kept changed same =
    let mapped : map f (messages ++ last ∷ []) ≡ messages ++ next ∷ [] =
      map-append_one f messages last
      ∙ ap (λ l. l ++ f last ∷ []) (map_unchanged f messages kept)
      ∙ ap (λ y. messages ++ y ∷ []) changed in
    ap (λ o. set_mapped iso id f o threads id) h
    ∙ ap (λ l. set_thread iso id l threads id) mapped
    ∙ set_thread-covers iso id (messages ++ next ∷ []) (messages ++ last ∷ []) threads h (
        All-snoc (λ m. is_fetched (messages ++ next ∷ []) m ≡ true) messages last
          (fetched-front next messages) (fetched-last next last messages same))

pub kept_thread :
    (keep : Bool) (o : Option (List ThreadMessage)) (l : List ThreadMessage)
    → o ≡ some l
    → existing_or keep o ≡ some l
kept_thread true none l h = cc
kept_thread false none l h = cc
kept_thread true (some x) l h = h
kept_thread false (some x) l h = h
