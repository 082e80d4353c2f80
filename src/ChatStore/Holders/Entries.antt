-- ===== src/ChatStore/Holders/Entries.antt =====
-- Lookups of an entry of `threadHolders` after another one, or the same, was changed or dropped.
use datha_platform.Base.{
  String, false, not, ◌==◌, List, [], ◌∷◌, none, some, filter, find, update, ◌≡◌, refl, sym, subst,
  arith, Bool-cases, inl, inr, eq_iff,
}
use datha_platform.ChatStore.Holders.{Shown, is_shown}

pub find-update_other :
    (id j : String) (holders : Shown → List String) (entries : List Shown)
    → (id == j) ≡ false
    → find (is_shown j) (update (is_shown id) (λ e. record e { holders = holders e }) entries)
      ≡ find (is_shown j) entries
unfolding find update
find-update_other id j holders [] h = refl
find-update_other id j holders (e ∷ entries) h = elim (Bool-cases (is_shown id e)) [
  | inl f ↦
      let apart : is_shown j e ≡ false =
        subst (λ w. (w == j) ≡ false) (sym ((eq_iff e.conversation id).0 f)) h in
      ground (arith, f, apart, find-update_other id j holders entries h)
  | inr f ↦ ground (arith, f, find-update_other id j holders entries h, Bool-cases (is_shown j e))
]

pub find-filter_other :
    (id j : String) (entries : List Shown)
    → (id == j) ≡ false
    → find (is_shown j) (filter (λ e. not (is_shown id e)) entries) ≡ find (is_shown j) entries
unfolding find filter
find-filter_other id j [] h = refl
find-filter_other id j (e ∷ entries) h = elim (Bool-cases (is_shown id e)) [
  | inl f ↦
      let apart : is_shown j e ≡ false =
        subst (λ w. (w == j) ≡ false) (sym ((eq_iff e.conversation id).0 f)) h in
      ground (arith, f, apart, find-filter_other id j entries h)
  | inr f ↦ ground (arith, f, find-filter_other id j entries h, Bool-cases (is_shown j e))
]

pub find-filter_gone :
    (id : String) (entries : List Shown)
    → find (is_shown id) (filter (λ e. not (is_shown id e)) entries) ≡ none
unfolding find filter
find-filter_gone id [] = refl
find-filter_gone id (e ∷ entries) =
    ground (arith, find-filter_gone id entries, Bool-cases (is_shown id e))

pub find-update_same :
    (id : String) (holders : Shown → List String) (entries : List Shown) (e : Shown)
    → find (is_shown id) entries ≡ some e
    → find (is_shown id) (update (is_shown id) (λ x. record x { holders = holders x }) entries)
      ≡ some (record e { holders = holders e })
unfolding find update
find-update_same id holders [] e h = cc
find-update_same id holders (x ∷ entries) e h = elim (Bool-cases (is_shown id x)) [
  | inl f ↦
      let same : x ≡ e = ground (arith, f, h) in
      subst
        (λ w.
          find (is_shown id)
            (update (is_shown id) (λ y. record y { holders = holders y }) (x ∷ entries))
          ≡ some (record w { holders = holders w }))
        same (rw (f, f) refl)
  | inr f ↦ ground (arith, f, find-update_same id holders entries e, h)
]
