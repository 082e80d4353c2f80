-- ===== src/ChatStore/Holders/Surfaces.antt =====
-- Every sequence of openings and closings, by the page and by docked windows.
use datha_platform.Base.{
  String, Bool, true, false, not, ◌&&◌, ◌||◌, ◌==◌, List, [], ◌∷◌, Option, none, some, filter, find,
  any, ◌≡◌, refl, sym, ap, ◌∙◌, subst, arith, Bool-cases, inl, inr, eq_refl, eq_iff,
}
use datha_platform.Messenger.Calls.{contains}
use datha_platform.ChatStore.Holders.{
  View, page_holder, is_shown, acquire_found, let_go, release_found, add, delete, acquire_thread,
  release_thread, open_thread, close_thread, release_page, release_previous, open_conversation_page,
  close_active_conversation, open_draft,
}
use datha_platform.ChatStore.Holders.Subscribed.{
  IsSubscribed, holders_of, holders-acquire, holders-acquire_other, holders-release,
  holders-release_other, acquire-IsSubscribed, release-IsSubscribed,
}

contains-add_same : (h : String) (hs : List String) → contains (add h hs) h ≡ true
unfolding any
contains-add_same h hs = elim (Bool-cases (contains hs h)) [
  | inl e ↦ rw e e
  | inr e ↦ rw e (rw (eq_refl h) refl)
]

contains-add_other :
    (h k : String) (hs : List String) → (h == k) ≡ false → contains (add h hs) k ≡ contains hs k
unfolding any
contains-add_other h k hs apart = elim (Bool-cases (contains hs h)) [
  | inl e ↦ rw e refl
  | inr e ↦ rw e (rw apart refl)
]

contains-delete_same : (h : String) (hs : List String) → contains (delete h hs) h ≡ false
unfolding any filter
contains-delete_same h [] = refl
contains-delete_same h (x ∷ hs) = ground (arith, contains-delete_same h hs, Bool-cases (x == h))

contains-delete_other :
    (h k : String) (hs : List String) → (h == k) ≡ false → contains (delete h hs) k ≡ contains hs k
unfolding any filter
contains-delete_other h k [] apart = refl
contains-delete_other h k (x ∷ hs) apart = elim (Bool-cases (x == h)) [
  | inl e ↦
      let differs : (x == k) ≡ false =
        subst (λ w. (w == k) ≡ false) (sym ((eq_iff x h).0 e)) apart in
      ground (arith, e, differs, contains-delete_other h k hs apart)
  | inr e ↦ ground (arith, e, contains-delete_other h k hs apart, Bool-cases (x == k))
]

abbrev pub is_active : String → Option String → Bool
is_active j none = false
is_active j (some id) = id == j

-- Is the page among the surfaces that show a conversation?
abbrev pub on_page : String → View → Bool
on_page j v = contains (holders_of j v.thread_holders) page_holder

-- The subscription is right, and the page shows the active conversation and no other.
pub record IsShowing (v : View) : Type 0 where
  pub subscribed : IsSubscribed v
  pub page : (j : String) → on_page j v ≡ is_active j v.active_id

-- What the page and the docked windows do; a dock's holder is not the page's.
pub data Acts : View → View → Type 0 where
  opens : (id : String) (v : View) → Acts v (open_conversation_page id v)
  closes : (v : View) → Acts v (close_active_conversation v)
  drafts : (peer : String) (v : View) → Acts v (open_draft peer v)
  docks : (id h : String) (v : View) → (h == page_holder) ≡ false → Acts v (open_thread id h v)
  undocks : (id h : String) (v : View) → (h == page_holder) ≡ false → Acts v (close_thread id h v)

pub data Runs : View → View → Type 0 where
  stays : (v : View) → Runs v v
  acts : (v w x : View) → Acts v w → Runs w x → Runs v x

acquire-on_page :
    (id j : String) (v : View)
    → on_page j (acquire_thread id page_holder v) ≡ ((id == j) || on_page j v)
acquire-on_page id j v = elim (Bool-cases (id == j)) [
  | inl e ↦ rw e (
      subst (λ w. on_page w (acquire_thread id page_holder v) ≡ true) ((eq_iff id j).0 e)
        (ap (λ hs. contains hs page_holder) (holders-acquire id page_holder v)
          ∙ contains-add_same page_holder (holders_of id v.thread_holders)))
  | inr e ↦ rw e (ap (λ hs. contains hs page_holder) (holders-acquire_other id page_holder j v e))
]

release-on_page :
    (id j : String) (v : View)
    → on_page j (release_thread id page_holder v) ≡ (not (id == j) && on_page j v)
release-on_page id j v = elim (Bool-cases (id == j)) [
  | inl e ↦ rw e (
      subst (λ w. on_page w (release_thread id page_holder v) ≡ false) ((eq_iff id j).0 e)
        (ap (λ hs. contains hs page_holder) (holders-release id page_holder v)
          ∙ contains-delete_same page_holder (holders_of id v.thread_holders)))
  | inr e ↦ rw e (ap (λ hs. contains hs page_holder) (holders-release_other id page_holder j v e))
]

dock-on_page :
    (id h j : String) (v : View)
    → (h == page_holder) ≡ false
    → on_page j (acquire_thread id h v) ≡ on_page j v
dock-on_page id h j v apart = elim (Bool-cases (id == j)) [
  | inl e ↦
      subst (λ w. on_page w (acquire_thread id h v) ≡ on_page w v) ((eq_iff id j).0 e)
        (ap (λ hs. contains hs page_holder) (holders-acquire id h v)
          ∙ contains-add_other h page_holder (holders_of id v.thread_holders) apart)
  | inr e ↦ ap (λ hs. contains hs page_holder) (holders-acquire_other id h j v e)
]

undock-on_page :
    (id h j : String) (v : View)
    → (h == page_holder) ≡ false
    → on_page j (release_thread id h v) ≡ on_page j v
undock-on_page id h j v apart = elim (Bool-cases (id == j)) [
  | inl e ↦
      subst (λ w. on_page w (release_thread id h v) ≡ on_page w v) ((eq_iff id j).0 e)
        (ap (λ hs. contains hs page_holder) (holders-release id h v)
          ∙ contains-delete_other h page_holder (holders_of id v.thread_holders) apart)
  | inr e ↦ ap (λ hs. contains hs page_holder) (holders-release_other id h j v e)
]

release_page-off :
    (j : String) (active : Option String) (v : View)
    → on_page j v ≡ is_active j active
    → on_page j (release_page active v) ≡ false
release_page-off j none v h = h
release_page-off j (some id) v h = ground (arith, release-on_page id j v, h)

release_previous-off :
    (id j : String) (active : Option String) (v : View)
    → on_page j v ≡ is_active j active
    → (id == j) ≡ false
    → on_page j (release_previous id active v) ≡ false
release_previous-off id j none v h apart = h
release_previous-off id j (some previous) v h apart = elim (Bool-cases (previous == id)) [
  | inl e ↦ rw e (h ∙ subst (λ w. (w == j) ≡ false) (sym ((eq_iff previous id).0 e)) apart)
  | inr e ↦ rw e (ground (arith, release-on_page previous j v, h))
]

release_page-IsSubscribed :
    (active : Option String) (v : View) → IsSubscribed v → IsSubscribed (release_page active v)
release_page-IsSubscribed none v s = s
release_page-IsSubscribed (some id) v s = release-IsSubscribed id page_holder v s

release_previous-IsSubscribed :
    (id : String) (active : Option String) (v : View)
    → IsSubscribed v
    → IsSubscribed (release_previous id active v)
release_previous-IsSubscribed id none v s = s
release_previous-IsSubscribed id (some previous) v s = elim (Bool-cases (previous == id)) [
  | inl e ↦ rw e s
  | inr e ↦ rw e (release-IsSubscribed previous page_holder v s)
]

-- The fields that the subscription does not concern.
activate :
    (active draft : Option String) (v : View)
    → IsSubscribed v
    → IsSubscribed (record v { active_id = active; draft_peer = draft })
activate active draft v s = record { full = s.full; synced = s.synced }

acquire-active : (id h : String) (v : View) → (acquire_thread id h v).active_id ≡ v.active_id
unfolding acquire_thread
acquire-active id h v =
    elim (find (is_shown id) v.thread_holders)
      as (λ o. (acquire_found id h v o).active_id ≡ v.active_id) [ none ↦ refl | some e ↦ refl ]

let_go-active :
    (id : String) (hs : List String) (v : View) → (let_go id hs v).active_id ≡ v.active_id
let_go-active id [] v = refl
let_go-active id (h ∷ hs) v = refl

release-active : (id h : String) (v : View) → (release_thread id h v).active_id ≡ v.active_id
unfolding release_thread
release-active id h v =
    elim (find (is_shown id) v.thread_holders)
      as (λ o. (release_found id h v o).active_id ≡ v.active_id) [
        | none ↦ refl
        | some e ↦ let_go-active id (delete h e.holders) v
      ]

opened :
    (id j : String) (v : View)
    → on_page j v ≡ is_active j v.active_id
    → ((id == j) || on_page j (release_previous id v.active_id v)) ≡ (id == j)
opened id j v h = elim (Bool-cases (id == j)) [
  | inl e ↦ rw e refl
  | inr e ↦ rw e (release_previous-off id j v.active_id v h e)
]

Acts-IsShowing : (v w : View) → Acts v w → IsShowing v → IsShowing w
unfolding open_conversation_page close_active_conversation open_draft open_thread close_thread
Acts-IsShowing v _ (opens id _) s =
    let before = release_previous id v.active_id v in
    record {
      subscribed =
          acquire-IsSubscribed id page_holder (record before { active_id = some id })
            (activate (some id) before.draft_peer before
              (release_previous-IsSubscribed id v.active_id v s.subscribed));
      page = λ j.
          acquire-on_page id j (record before { active_id = some id })
          ∙ opened id j v (s.page j)
          ∙ sym (
              ap (is_active j)
                (acquire-active id page_holder (record before { active_id = some id })));
    }
Acts-IsShowing v _ (closes _) s = record {
  subscribed =
      activate none none (release_page v.active_id v)
        (release_page-IsSubscribed v.active_id v s.subscribed);
  page = λ j. release_page-off j v.active_id v (s.page j);
}
Acts-IsShowing v _ (drafts peer _) s = record {
  subscribed =
      activate none (some peer) (release_page v.active_id v)
        (release_page-IsSubscribed v.active_id v s.subscribed);
  page = λ j. release_page-off j v.active_id v (s.page j);
}
Acts-IsShowing v _ (docks id h _ apart) s = record {
  subscribed = acquire-IsSubscribed id h v s.subscribed;
  page =
      λ j. dock-on_page id h j v apart ∙ s.page j ∙ sym (ap (is_active j) (acquire-active id h v));
}
Acts-IsShowing v _ (undocks id h _ apart) s = record {
  subscribed = release-IsSubscribed id h v s.subscribed;
  page = λ j.
      undock-on_page id h j v apart ∙ s.page j ∙ sym (ap (is_active j) (release-active id h v));
}

-- However the page opens, closes and drafts, and docked windows open and close threads of their own:
-- the socket stays subscribed to the conversations that some surface shows and to no other, and the page
-- shows the active conversation and no other.
pub Runs-IsShowing : (v w : View) → Runs v w → IsShowing v → IsShowing w
Runs-IsShowing v _ (stays _) s = s
Runs-IsShowing v x (acts _ w _ one rest) s = Runs-IsShowing w x rest (Acts-IsShowing v w one s)
