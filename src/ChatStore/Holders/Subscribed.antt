-- ===== src/ChatStore/Holders/Subscribed.antt =====
-- The subscription of the socket is that of the surfaces: a refinement of the map of holders to one set
-- for each conversation.
use datha_platform.Base.{
  String, Bool, true, false, not, ◌==◌, List, [], ◌∷◌, Option, none, some, if◌then◌else◌, is_some,
  filter, any, find, ◌≡◌, refl, sym, ap, ◌∙◌, subst, Bool-cases, inl, inr, eq_refl, eq_iff,
}
use datha_platform.Messenger.Calls.{contains, is_empty}
use datha_platform.ChatStore.Holders.Entries.{
  find-update_other, find-filter_other, find-filter_gone, find-update_same,
}
use datha_platform.ChatStore.Holders.{
  Shown, SocketFrame, open_conversation, close_conversation, View, is_shown, add, delete,
  acquire_found, acquire_thread, let_go, release_found, release_thread,
}

abbrev pub held : Option Shown → List String
held none = []
held (some e) = e.holders

-- The surfaces that show a conversation.
abbrev pub holders_of : String → List Shown → List String
holders_of id entries = held (find (is_shown id) entries)

-- What the frames sent leave the socket subscribed to.
unfoldable pub is_subscribed : String → List SocketFrame → Bool
is_subscribed id [] = false
is_subscribed id (open_conversation other ∷ frames) =
    if other == id then true else is_subscribed id frames
is_subscribed id (close_conversation other ∷ frames) =
    if other == id then false else is_subscribed id frames

add-nonempty : (h : String) (hs : List String) → is_empty (add h hs) ≡ false
unfolding any
add-nonempty h [] = refl
add-nonempty h (x ∷ hs) = elim (Bool-cases (contains (x ∷ hs) h)) [
  | inl e ↦ rw e refl
  | inr e ↦ rw e refl
]

holders-acquire_found :
    (id h : String) (v : View) (o : Option Shown)
    → find (is_shown id) v.thread_holders ≡ o
    → holders_of id (acquire_found id h v o).thread_holders ≡ add h (held o)
unfolding find any
holders-acquire_found id h v none e = rw (eq_refl id) refl
holders-acquire_found id h v (some x) e =
    ap held (find-update_same id (λ y. add h x.holders) v.thread_holders x e)

pub holders-acquire :
    (id h : String) (v : View)
    → holders_of id (acquire_thread id h v).thread_holders ≡ add h (holders_of id v.thread_holders)
unfolding acquire_thread
holders-acquire id h v = holders-acquire_found id h v (find (is_shown id) v.thread_holders) refl

holders-acquire_found_other :
    (id h j : String) (v : View) (o : Option Shown)
    → (id == j) ≡ false
    → holders_of j (acquire_found id h v o).thread_holders ≡ holders_of j v.thread_holders
unfolding find
holders-acquire_found_other id h j v none apart = rw apart refl
holders-acquire_found_other id h j v (some x) apart =
    ap held (find-update_other id j (λ y. add h x.holders) v.thread_holders apart)

holders-let_go :
    (id : String) (hs : List String) (v : View) (e : Shown)
    → find (is_shown id) v.thread_holders ≡ some e
    → holders_of id (let_go id hs v).thread_holders ≡ hs
holders-let_go id [] v e found = ap held (find-filter_gone id v.thread_holders)
holders-let_go id (h ∷ hs) v e found =
    ap held (find-update_same id (λ y. h ∷ hs) v.thread_holders e found)

holders-let_go_other :
    (id j : String) (hs : List String) (v : View)
    → (id == j) ≡ false
    → holders_of j (let_go id hs v).thread_holders ≡ holders_of j v.thread_holders
holders-let_go_other id j [] v apart = ap held (find-filter_other id j v.thread_holders apart)
holders-let_go_other id j (h ∷ hs) v apart =
    ap held (find-update_other id j (λ y. h ∷ hs) v.thread_holders apart)

holders-release_found :
    (id h : String) (v : View) (o : Option Shown)
    → find (is_shown id) v.thread_holders ≡ o
    → holders_of id (release_found id h v o).thread_holders ≡ delete h (held o)
unfolding filter
holders-release_found id h v none e = ap held e
holders-release_found id h v (some x) e = holders-let_go id (delete h x.holders) v x e

pub holders-release :
    (id h : String) (v : View)
    → holders_of id (release_thread id h v).thread_holders
      ≡ delete h (holders_of id v.thread_holders)
unfolding release_thread
holders-release id h v = holders-release_found id h v (find (is_shown id) v.thread_holders) refl

holders-release_found_other :
    (id h j : String) (v : View) (o : Option Shown)
    → (id == j) ≡ false
    → holders_of j (release_found id h v o).thread_holders ≡ holders_of j v.thread_holders
holders-release_found_other id h j v none apart = refl
holders-release_found_other id h j v (some x) apart =
    holders-let_go_other id j (delete h x.holders) v apart

pub holders-acquire_other :
    (id h j : String) (v : View)
    → (id == j) ≡ false
    → holders_of j (acquire_thread id h v).thread_holders ≡ holders_of j v.thread_holders
unfolding acquire_thread
holders-acquire_other id h j v apart =
    holders-acquire_found_other id h j v (find (is_shown id) v.thread_holders) apart

pub holders-release_other :
    (id h j : String) (v : View)
    → (id == j) ≡ false
    → holders_of j (release_thread id h v).thread_holders ≡ holders_of j v.thread_holders
unfolding release_thread
holders-release_other id h j v apart =
    holders-release_found_other id h j v (find (is_shown id) v.thread_holders) apart

-- Each conversation that has an entry has a holder, and the socket is subscribed to these
-- conversations and to no other.
pub record IsSubscribed (v : View) : Type 0 where
  pub full :
      (j : String)
      → is_some (find (is_shown j) v.thread_holders)
        ≡ not (is_empty (holders_of j v.thread_holders))
  pub synced : (j : String) → is_subscribed j v.sent ≡ is_some (find (is_shown j) v.thread_holders)

-- Both for one conversation.
abbrev At : View → String → Type 0
At v j =
    (is_some (find (is_shown j) v.thread_holders) ≡ not (is_empty (holders_of j v.thread_holders)))
    × (is_subscribed j v.sent ≡ is_some (find (is_shown j) v.thread_holders))

acquire-At :
    (id h j : String) (v : View) (o : Option Shown)
    → find (is_shown id) v.thread_holders ≡ o
    → IsSubscribed v
    → At (acquire_found id h v o) j
unfolding find is_subscribed any
acquire-At id h j v none e s = elim (Bool-cases (id == j)) [
  | inl f ↦ rw f (refl, refl)
  | inr f ↦ rw f (s.full j, s.synced j)
]
acquire-At id h j v (some x) e s = elim (Bool-cases (id == j)) [
  | inl f ↦
      subst (λ w. At (acquire_found id h v (some x)) w) ((eq_iff id j).0 f)
        (
          ap is_some (find-update_same id (λ y. add h x.holders) v.thread_holders x e)
              ∙ sym (
                  ap not (
                    ap is_empty
                      (ap held (find-update_same id (λ y. add h x.holders) v.thread_holders x e))
                    ∙ add-nonempty h x.holders)),
          s.synced id
              ∙ ap is_some e
              ∙ sym (ap is_some (find-update_same id (λ y. add h x.holders) v.thread_holders x e)),
        )
  | inr f ↦
      let same = find-update_other id j (λ y. add h x.holders) v.thread_holders f in
      (
        ap is_some same ∙ s.full j ∙ sym (ap (λ o. not (is_empty (held o))) same),
        s.synced j ∙ sym (ap is_some same),
      )
]

let_go-At :
    (id j : String) (hs : List String) (v : View) (x : Shown)
    → find (is_shown id) v.thread_holders ≡ some x
    → IsSubscribed v
    → At (let_go id hs v) j
unfolding is_subscribed
let_go-At id j [] v x e s = elim (Bool-cases (id == j)) [
  | inl f ↦
      subst (λ w. At (let_go id [] v) w) ((eq_iff id j).0 f)
        (
          ap is_some (find-filter_gone id v.thread_holders)
              ∙ sym (ap (λ o. not (is_empty (held o))) (find-filter_gone id v.thread_holders)),
          rw (eq_refl id) (sym (ap is_some (find-filter_gone id v.thread_holders))),
        )
  | inr f ↦
      let same = find-filter_other id j v.thread_holders f in
      (
        ap is_some same ∙ s.full j ∙ sym (ap (λ o. not (is_empty (held o))) same),
        rw f (s.synced j ∙ sym (ap is_some same)),
      )
]
let_go-At id j (h ∷ hs) v x e s = elim (Bool-cases (id == j)) [
  | inl f ↦
      let same = find-update_same id (λ y. h ∷ hs) v.thread_holders x e in
      subst (λ w. At (let_go id (h ∷ hs) v) w) ((eq_iff id j).0 f)
        (
          ap is_some same ∙ sym (ap (λ o. not (is_empty (held o))) same),
          s.synced id ∙ ap is_some e ∙ sym (ap is_some same),
        )
  | inr f ↦
      let same = find-update_other id j (λ y. h ∷ hs) v.thread_holders f in
      (
        ap is_some same ∙ s.full j ∙ sym (ap (λ o. not (is_empty (held o))) same),
        s.synced j ∙ sym (ap is_some same),
      )
]

release-At :
    (id h j : String) (v : View) (o : Option Shown)
    → find (is_shown id) v.thread_holders ≡ o
    → IsSubscribed v
    → At (release_found id h v o) j
release-At id h j v none e s = (s.full j, s.synced j)
release-At id h j v (some x) e s = let_go-At id j (delete h x.holders) v x e s

pub acquire-IsSubscribed :
    (id h : String) (v : View) → IsSubscribed v → IsSubscribed (acquire_thread id h v)
unfolding acquire_thread
acquire-IsSubscribed id h v s = record {
  full = λ j. (acquire-At id h j v (find (is_shown id) v.thread_holders) refl s).0;
  synced = λ j. (acquire-At id h j v (find (is_shown id) v.thread_holders) refl s).1;
}

pub release-IsSubscribed :
    (id h : String) (v : View) → IsSubscribed v → IsSubscribed (release_thread id h v)
unfolding release_thread
release-IsSubscribed id h v s = record {
  full = λ j. (release-At id h j v (find (is_shown id) v.thread_holders) refl s).0;
  synced = λ j. (release-At id h j v (find (is_shown id) v.thread_holders) refl s).1;
}
