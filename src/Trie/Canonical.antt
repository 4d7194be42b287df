-- ===== src/Trie/Canonical.antt =====
-- The tree of a map without collision nodes is decided by what the map answers.
use native.Mathlib.Decide.{ℕ_discrete}
use champ_trie.Prelude.{
  some_ne_none, some_inj, ℕ, ◌+◌, ◌<◌, ◌^◌, ◌≡◌, refl, ap, sym, subst, ◌∙◌, true, none, some, List,
  [], ◌∷◌, length, arith,
}
use champ_trie.Hashing.{Key}
use champ_trie.Node.{Entry, fragment}
use champ_trie.Trie.{Trie, Slot, Slots, inner, collision, vacant, entry, subtree, slot_at}
use champ_trie.Trie.Induction.{trie_induction, child-IsSlot}
use champ_trie.Trie.Lookup.{hash_of, get-inner}
use champ_trie.Trie.Model.{entries, find, get}
use champ_trie.Trie.Paths.{step_path-lt}
use champ_trie.Trie.Preserve.{weigh-one}
use champ_trie.Trie.Entries.{held}
use champ_trie.Trie.Search.{find-miss, slot_placed, get-find}
use champ_trie.Trie.Shape.{IsPlaced, IsTrie, IsSlot, step_path, slot_at-IsSlot}
use champ_trie.Trie.Split.{
  IsSplit, IsSplitSlot, AreSplit, slot_at-IsSplit, slots_same, find-head, find-one, at_slot,
  OneHash-weight,
}

module _ {ℓ} {K V : Type ℓ} ⦃key : Key K⦄ where
  abbrev made : ℕ → K → V → Entry K V
  made h k v = record { hash = h; key = k; value = v }

  entry_same : (x y : Entry K V) → x.hash ≡ y.hash → x.key ≡ y.key → x.value ≡ y.value → x ≡ y
  entry_same x y h k v =
      let step : made x.hash x.key x.value ≡ made y.hash y.key y.value = rw (h, k, v) refl in step

  -- Entries are found under their keys.
  no_answers : (es : List (Entry K V)) → ((q : K) → find es q ≡ none) → length es ≡ 0
  no_answers [] e = refl
  no_answers (x ∷ es) e = absurd (some_ne_none x.value (sym (find-head x es) ∙ e x.key))

  -- One entry answers less than a subtree.
  one_answers :
      (x : Entry K V) (u : Trie K V) (shift p : ℕ)
      → p < 2 ^ shift
      → IsSlot (subtree u) shift p
      → IsSplit u
      → ((q : K) → find (x ∷ []) q ≡ find (entries u) q)
      → ⊥
  one_answers x u shift p low (a, more) split e =
      let light = OneHash-weight (hash_of x.key) u shift p a low split (λ q v g.
        sym (
          key.digest-equal x.key q
            (find-one x q v (e q ∙ sym (get-find q u shift p a low) ∙ g)))) in
      omega (arith, light, more, weigh-one u)

  module _ (identity : (a b : K) → key.equal a b ≡ true → a ≡ b) where
    one_same :
        (x y : Entry K V) (shift p : ℕ)
        → IsPlaced x shift p
        → IsPlaced y shift p
        → ((q : K) → find (x ∷ []) q ≡ find (y ∷ []) q)
        → x ≡ y
    unfolding find
    one_same x y shift p a b e =
        let there : find (x ∷ []) y.key ≡ some y.value = e y.key ∙ find-head y [] in
        let same = find-one x y.key y.value there in
        let values : x.value ≡ y.value = some_inj x.value y.value (rw same at there) in
        let keys = identity x.key y.key same in
        let hashes : x.hash ≡ y.hash =
          a.hash_lem ∙ key.digest-equal x.key y.key same ∙ sym b.hash_lem in
        entry_same x y hashes keys values

    -- The same answers at a position.
    slot_same :
        (s s' : Slot K V) (shift p : ℕ)
        → p < 2 ^ shift
        → IsSlot s shift p
        → IsSlot s' shift p
        → IsSplitSlot s
        → IsSplitSlot s'
        → ((q : K) → find (held s) q ≡ find (held s') q)
        → ((t u : Trie K V) → s ≡ subtree t → s' ≡ subtree u → t ≡ u)
        → s ≡ s'
    unfolding find
    slot_same vacant vacant shift p low a b c d e deep = refl
    slot_same (entry x) (entry y) shift p low a b c d e deep = ap entry (one_same x y shift p a b e)
    slot_same (subtree t) (subtree u) shift p low a b c d e deep = ap subtree (deep t u refl refl)
    slot_same vacant (entry y) shift p low a b c d e deep =
        absurd (omega (arith, no_answers (y ∷ []) (λ q. sym (e q))))
    slot_same vacant (subtree u) shift p low a b c d e deep =
        absurd (omega (arith, b.1, no_answers (entries u) (λ q. sym (e q))))
    slot_same (entry x) vacant shift p low a b c d e deep =
        absurd (omega (arith, no_answers (x ∷ []) e))
    slot_same (entry x) (subtree u) shift p low a b c d e deep =
        absurd (one_answers x u shift p low b d e)
    slot_same (subtree t) vacant shift p low a b c d e deep =
        absurd (omega (arith, a.1, no_answers (entries t) e))
    slot_same (subtree t) (entry y) shift p low a b c d e deep =
        absurd (one_answers y t shift p low a c (λ q. sym (e q)))

    abbrev SameAnswers : Trie K V → Trie K V → ℕ → Type ℓ
    SameAnswers t u shift = (q : K) → get t (hash_of q) q shift ≡ get u (hash_of q) q shift

    -- At every position two nodes with the same answers answer the same.
    slots_answer :
        (sl sl' : Slots K V) (shift p : ℕ) (low : p < 2 ^ shift)
        → (a : IsTrie (inner sl) shift p) → (b : IsTrie (inner sl') shift p)
        → SameAnswers (inner sl) (inner sl') shift
        → (f : ℕ) → f < 32
        → (q : K) → find (held (slot_at sl f)) q ≡ find (held (slot_at sl' f)) q
    slots_answer sl sl' shift p low a b e f small q =
        elim (ℕ_discrete (fragment (hash_of q) shift) f) [
          | yes d ↦
              let left : get (inner sl) (hash_of q) q shift ≡ find (held (slot_at sl f)) q =
                rw (get-inner sl (hash_of q) q shift, d) (at_slot sl shift p low a f q small) in
              let right : get (inner sl') (hash_of q) q shift ≡ find (held (slot_at sl' f)) q =
                rw (get-inner sl' (hash_of q) q shift, d) (at_slot sl' shift p low b f q small) in
              sym left ∙ e q ∙ right
          | no n ↦
              find-miss q shift p low (held (slot_at sl f)) f
                (slot_placed q shift p low (slot_at sl f) f (slot_at-IsSlot sl shift p f a.2) small)
                n
              ∙ sym (
                  find-miss q shift p low (held (slot_at sl' f)) f
                    (slot_placed q shift p low (slot_at sl' f) f (slot_at-IsSlot sl' shift p f b.2)
                      small)
                    n)
        ]

    pub canonical :
        (t : Trie K V) (shift p : ℕ)
        → IsTrie t shift p
        → (u : Trie K V) → p < 2 ^ shift
        → IsTrie u shift p
        → IsSplit t
        → IsSplit u
        → SameAnswers t u shift
        → t ≡ u
    canonical =
        trie_induction
          (λ t shift p.
            (u : Trie K V)
            → p < 2 ^ shift
            → IsTrie u shift p
            → IsSplit t
            → IsSplit u
            → SameAnswers t u shift
            → t ≡ u)
          (λ h es shift p a u low b c d e. absurd c)
          (λ sl shift p a deep u low b c d e. same_inner sl shift p a deep u low b c d e)
      where
        same_inner :
            (sl : Slots K V) (shift p : ℕ)
            → IsTrie (inner sl) shift p
            → ((f : ℕ) (t : Trie K V)
                → slot_at sl f ≡ subtree t
                → (u : Trie K V) → step_path shift p f < 2 ^ (shift + 5)
                → IsTrie u (shift + 5) (step_path shift p f)
                → IsSplit t
                → IsSplit u
                → SameAnswers t u (shift + 5)
                → t ≡ u)
            → (u : Trie K V) → p < 2 ^ shift
            → IsTrie u shift p
            → AreSplit sl
            → IsSplit u
            → SameAnswers (inner sl) u shift
            → inner sl ≡ u
        same_inner sl shift p a deep (collision h es) low b c d e = absurd d
        same_inner sl shift p a deep (inner sl') low b c d e = ap inner (
            slots_same sl sl' (a.1 ∙ sym b.1) (λ f i.
              let small : f < 32 = rw a.1 at i in
              let low' = step_path-lt shift p f low small in
              let found = slots_answer sl sl' shift p low a b e f small in
              slot_same (slot_at sl f) (slot_at sl' f) (shift + 5) (step_path shift p f) low'
                (slot_at-IsSlot sl shift p f a.2) (slot_at-IsSlot sl' shift p f b.2)
                (slot_at-IsSplit sl f c) (slot_at-IsSplit sl' f d) found
                (λ t u g g'.
                  let x = (child-IsSlot sl shift p f t a g).0 in
                  let y = (child-IsSlot sl' shift p f u b g').0 in
                  deep f t g u low' y (subst (λ s. IsSplitSlot s) g (slot_at-IsSplit sl f c))
                    (subst (λ s. IsSplitSlot s) g' (slot_at-IsSplit sl' f d))
                    (λ q.
                      get-find q t (shift + 5) (step_path shift p f) x low'
                      ∙ (rw (g, g') at (found q))
                      ∙ sym (get-find q u (shift + 5) (step_path shift p f) y low')))))
