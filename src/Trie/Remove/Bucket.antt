-- ===== src/Trie/Remove/Bucket.antt =====
-- What a lookup finds after a removal from a collision node.
use champ_trie.Prelude.{
  ℕ, ◌≤◌, ◌≡◌, refl, sym, ◌∙◌, true, false, Option, none, some, List, [], ◌∷◌, length, arith, ◌==◌,
  ==_iff, Bool-cases, Option-cases, inl, inr, if◌then◌else◌,
}
use champ_trie.Hashing.{Key}
use champ_trie.Node.{Entry, fragment}
use champ_trie.Node.Bitmap.{fragment-lt}
use champ_trie.Trie.{collision}
use champ_trie.Trie.Insertion.{equal_congr}
use champ_trie.Trie.Lookup.{hash_of, hash_of_equal, get_slot-entry}
use champ_trie.Trie.Model.{find, get, get_slot}
use champ_trie.Trie.Shape.{AllPlaced, IsBucket, Apart, IsDistinct, hash_at_end}
use champ_trie.Trie.Remove.{removed, slot_after, bucket, pick, drop_key, remove}
use champ_trie.Trie.Remove.Shape.{lone-single, drop_key-AllPlaced, length-drop_key}
use champ_trie.Trie.Remove.Lookup.{bucket-value}
use champ_trie.Trie.Remove.Alone.{unless}
use champ_trie.Trie.Remove.After.{Answers, Answers-absent}

module _ {ℓ} {K V : Type ℓ} ⦃key : Key K⦄ where
  -- An entry under a key that no other entry has.
  find-Apart :
      (es : List (Entry K V)) (x : Entry K V) (q : K)
      → Apart x es
      → key.equal x.key q ≡ true
      → find es q ≡ none
  unfolding find
  find-Apart [] x q a e = refl
  find-Apart (y ∷ es) x q a e =
      let other : key.equal y.key q ≡ false =
        key.equal_flip y.key q
        ∙ sym (equal_congr x.key q y.key e)
        ∙ key.equal_flip x.key y.key
        ∙ a.0 in
      rw other (find-Apart es x q a.1 e)

  module _ (k q : K) where
    find-drop_key :
        (es : List (Entry K V)) → IsDistinct es → find (drop_key es k) q ≡ unless k q (find es q)
    unfolding find
    find-drop_key [] d = elim (Bool-cases (key.equal k q)) [ inl c ↦ rw c refl | inr c ↦ rw c refl ]
    find-drop_key (x ∷ es) d = elim (Bool-cases (key.equal x.key k)) [
      | inl c ↦
          let same : key.equal x.key q ≡ key.equal k q = equal_congr x.key k q c in
          rw (c, same)
            (elim (Bool-cases (key.equal k q)) [
              | inl e ↦ rw e (find-Apart es x q d.0 (same ∙ e))
              | inr e ↦ rw e refl
            ])
      | inr c ↦
          rw (c, find-drop_key es d.1)
            (elim (Bool-cases (key.equal x.key q)) [
              | inl e ↦
                  let other : key.equal k q ≡ false =
                    key.equal_flip k q ∙ sym (equal_congr x.key q k e) ∙ c in
                  rw (e, other) refl
              | inr e ↦ rw e refl
            ])
    ]

  module _ (h : ℕ) (q : K) where
    abbrev here : Option V → Option V
    here o = if hash_of q == h then o else none

    bucket-get :
        (rest : List (Entry K V)) (shift p : ℕ)
        → shift ≡ 65
        → h ≡ p
        → 1 ≤ length rest
        → AllPlaced rest shift p
        → get_slot (slot_after (some (bucket h rest))) (hash_of q) q shift ≡ here (find rest q)
    unfolding get find
    bucket-get [] shift p s e n a = absurd (omega arith)
    bucket-get (x ∷ []) shift p s e n a =
        rw
          (
            lone-single (fragment x.hash 0) x (fragment-lt x.hash 0),
            get_slot-entry x q shift shift p a.0,
          )
          (elim (Bool-cases (key.equal x.key q)) [
            | inl c ↦
                let hash : hash_of q ≡ h =
                  sym (hash_of_equal x q shift p a.0 c) ∙ hash_at_end x p (rw s at a.0) ∙ sym e in
                rw (c, (==_iff _ _).1 hash) refl
            | inr c ↦
                rw c (elim (Bool-cases (hash_of q == h)) [ inl d ↦ rw d refl | inr d ↦ rw d refl ])
          ])
    bucket-get (x ∷ y ∷ rest) shift p s e n a = refl

  module _ (k q : K) (h : ℕ) (es : List (Entry K V)) (shift p : ℕ) (b : IsBucket h es shift p) where
    Answers-found :
        (x : Entry K V)
        → pick es k ≡ some x
        → Answers k q (collision h es) (removed x (some (bucket h (drop_key es k)))) shift
    unfolding get
    Answers-found x c =
        let n = length-drop_key es k x c in
        let more = b.two in
        bucket-get h q (drop_key es k) shift p b.deepest b.hash_on_path (omega arith)
          (drop_key-AllPlaced es k shift p b.placed)
        ∙ rw (find-drop_key k q es b.distinct) (elim (Bool-cases (hash_of q == h)) [
          | inl d ↦ rw d refl
          | inr d ↦
              rw d (elim (Bool-cases (key.equal k q)) [ inl c ↦ rw c refl | inr c ↦ rw c refl ])
        ])

    pub Answers-collision :
        Answers k q (collision h es) (remove (collision h es) (hash_of k) k shift) shift
    unfolding remove
    Answers-collision = elim (Bool-cases (hash_of k == h)) [
      | inl c ↦ rw c (elim (Option-cases (pick es k)) [
        | inl d ↦ rw d (
            Answers-absent k q (collision h es) shift p b
              (unfold get in rw c (sym (rw d at (bucket-value h (drop_key es k) es k)))))
        | inr (x, d) ↦ rw d (Answers-found x d)
      ])
      | inr c ↦ rw c (Answers-absent k q (collision h es) shift p b (unfold get in rw c refl))
    ]
