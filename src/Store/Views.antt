-- ===== src/Store/Views.antt =====
-- Growth of a store: reflexive and transitive, and what was readable stays so.
use champ_trie.Prelude.{
  ◌≡◌, refl, ap, sym, ◌∙◌, some, ℕ, List, [], ◌++◌, get_elem?, get_elem?-append_left,
}
use mathlib.Core.List.{append-nil, append_assoc}
use champ_trie.Node.{Entry, Node, Idx}
use champ_trie.Store.Block.{Block}
use champ_trie.Store.{Arenas, Grows, Extends}

module _ {ℓ} {A : Type ℓ} where
  Grows-refl : (xs : List A) → Grows xs xs
  Grows-refl xs = ([], sym (append-nil xs))

  Grows-trans : (xs : List A) {ys zs : List A} → Grows xs ys → Grows ys zs → Grows xs zs
  Grows-trans xs g h = (g.0 ++ h.0, h.1 ∙ ap (λ l. l ++ h.0) g.1 ∙ append_assoc xs g.0 h.0)

  pub Grows-get :
      (xs : List A) {ys : List A} (i : ℕ) (x : A)
      → Grows xs ys
      → get_elem? xs i ≡ some x
      → get_elem? ys i ≡ some x
  Grows-get xs i x g h = rw g.1 (get_elem?-append_left xs g.0 i x h)

module _ {ℓ} {K V : Type ℓ} where
  pub Extends-refl : (v : Arenas K V) → Extends v v
  Extends-refl v = record {
    nodes_grow = Grows-refl v.nodes;
    entries_grow = Grows-refl v.entries;
    children_grow = Grows-refl v.children;
  }

  pub Extends-trans : {u v w : Arenas K V} → Extends u v → Extends v w → Extends u w
  Extends-trans {u} a b = record {
    nodes_grow = Grows-trans u.nodes a.nodes_grow b.nodes_grow;
    entries_grow = Grows-trans u.entries a.entries_grow b.entries_grow;
    children_grow = Grows-trans u.children a.children_grow b.children_grow;
  }

  pub Extends-nodes :
      (v : Arenas K V) (ns : List Node) → Extends v (record v { nodes = v.nodes ++ ns })
  Extends-nodes v ns = record {
    nodes_grow = (ns, refl);
    entries_grow = Grows-refl v.entries;
    children_grow = Grows-refl v.children;
  }

  pub Extends-entries :
      (v : Arenas K V) (es : List (Entry K V)) → Extends v (record v { entries = v.entries ++ es })
  Extends-entries v es = record {
    nodes_grow = Grows-refl v.nodes;
    entries_grow = (es, refl);
    children_grow = Grows-refl v.children;
  }

  pub Extends-children :
      (v : Arenas K V) (cs : List Idx) → Extends v (record v { children = v.children ++ cs })
  Extends-children v cs = record {
    nodes_grow = Grows-refl v.nodes;
    entries_grow = Grows-refl v.entries;
    children_grow = (cs, refl);
  }

-- A block of an arena stays when the arena grows.
pub Block-grows {ℓ} :
    {A : Type ℓ} (xs : List A) {ys : List A} (start : ℕ) (b : List A)
    → Grows xs ys
    → Block xs start b
    → Block ys start b
Block-grows xs start b g h i x p = Grows-get xs _ x g (h i x p)
