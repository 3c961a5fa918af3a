-- ===== src/Treeview/NotesModel/Consistent.antt =====
-- treeview/src/notesmodel.cpp: parent() against index().
use cosec_examples.Prelude.{
  ℕ, zero, suc, ◌+◌, ◌≤◌, ◌≡◌, sym, subst, ap, ◌∙◌, ◌≢◌, inl, inr, Option, none, some, ◌==◌, arith,
  Option-cases,
}
use cosec_examples.Treeview.Notes.{Address, NoteEntity, Items}
use cosec_examples.Treeview.NotesModel.{
  ℤ, pos, negsuc, QModelIndex, NotesModel, this, parent_, items_of, item_at, find, target, index_in,
  index_of, index, row_of, parent_index, parent,
}
use cosec_examples.Treeview.NotesModel.Tree.{
  one_if, count, count_items, Parented, count-this, find-this, find-this_self, count-find,
  item_at-count, find-item_at, row_of-item_at, find-find, parent_-Parented, Parented-find,
  Parented-item_at, folder-count, folder-find, folder-Parented,
}

-- The tree of the root folder: each pointer to a parent is right, and each object has its own address.
pub record IsTree (root : NoteEntity) : Type 0 where
  pub parented : Parented none root
  pub once : (a : Address) → count a root ≤ 1

-- The indices that the model gives out: the invalid one, and those that index() gives for one of them.
pub data IsIndex (m : NotesModel) : Option QModelIndex → Type 0 where
  top : IsIndex m none
  child :
      {p : Option QModelIndex} {i : QModelIndex} (row column : ℤ)
      → IsIndex m p
      → index m row column p ≡ some (some i)
      → IsIndex m (some i)

-- `p` points to the folder `f`, in whose row `i.row` there is `e`, to which `i` points.
record Placed (root : NoteEntity) (p : Option QModelIndex) (i : QModelIndex) : Type 0 where
  f : NoteEntity
  items : Items
  e : NoteEntity
  target_f : target root p ≡ some f
  items_of_f : items_of f ≡ some items
  item_at_row : item_at items i.row ≡ some e
  points : i.internal_pointer ≡ this e

index-Placed :
    (m : NotesModel) (root : NoteEntity) (p : Option QModelIndex) (i : QModelIndex) (row column : ℤ)
    → m.notes ≡ some root
    → index m row column p ≡ some (some i)
    → Placed root p i
unfolding index index_of index_in
index-Placed m root p i (negsuc r) column mr h = absurd (cc)
index-Placed m root p i (pos r) (negsuc c) mr h = absurd (cc)
index-Placed m root p i (pos r) (pos (suc c)) mr h = absurd (cc)
index-Placed m root p i (pos r) (pos zero) mr h = elim (Option-cases (target root p)) [
  | inl t ↦ absurd (ground arith)
  | inr (f, t) ↦ elim (Option-cases (items_of f)) [
    | inl it ↦ absurd (ground arith)
    | inr (items, it) ↦ elim (Option-cases (item_at items r)) [
      | inl at ↦ absurd (ground arith)
      | inr (e, at) ↦
          let here : i ≡ record { row = r; internal_pointer = this e } = ground arith in
          record {
            f = f;
            items = items;
            e = e;
            target_f = t;
            items_of_f = it;
            item_at_row = ap (λ j. item_at items j.row) here ∙ at;
            points = ap (λ j. j.internal_pointer) here;
          }
    ]
  ]
]

module _ (root : NoteEntity) (v : IsTree root) where
  target-find :
      (p : Option QModelIndex) (f : NoteEntity)
      → target root p ≡ some f
      → find (this f) root ≡ some f
  unfolding target
  target-find none f h =
      let same : root ≡ f = ground arith in
      subst (λ g. find (this g) root ≡ some g) same (find-this_self root)
  target-find (some j) f h =
      subst (λ a. find a root ≡ some f) (sym (find-this j.internal_pointer root f h)) h

  -- What stands in a folder of the tree is found by its address and in its row, its parent is the
  -- folder, and it is not the root.
  found :
      (f e : NoteEntity) (items : Items) (i : ℕ)
      → find (this f) root ≡ some f
      → items_of f ≡ some items
      → item_at items i ≡ some e
      → (find (this e) root ≡ some e)
        × (parent_ e ≡ some (this f))
        × (this e ≢ this root)
        × (row_of (this e) 0 items ≡ some (record { row = i; internal_pointer = this e }))
  found f e items i hf hi he =
      let here : 1 ≤ count_items (this e) items =
        omega (arith, item_at-count items i e (this e) he, count-this e) in
      let all : count (this e) f ≡ one_if (this e == this f) + count_items (this e) items =
        folder-count f items (this e) hi in
      let once : count (this e) f ≤ 1 =
        omega (arith, count-find (this f) root f (this e) hf, v.once (this e)) in
      let other : this e ≢ this f = λ q. absurd (ground arith) in
      let few : count_items (this e) items ≤ 1 = omega arith in
      let under : find (this e) f ≡ some e =
        folder-find f items (this e) hi other ∙ find-item_at items i e he few in
      let from_zero : 0 + i ≡ i = omega arith in
      let by : find (this e) root ≡ some e =
        find-find (this f) (this e) root f e hf under (v.once (this e)) in
      (
        by,
        parent_-Parented (some (this f)) e (
            Parented-item_at items i (some (this f)) e
              (folder-Parented f items (parent_ f) hi
                (Parented-find (this f) root none f v.parented hf))
              he),
        not_root by,
        row_of-item_at items i 0 e he few
            ∙ ap (λ k. some (record { row = k; internal_pointer = this e })) from_zero,
      )
    where
      not_root : find (this e) root ≡ some e → this e ≢ this root
      not_root by q =
          let by' : find (this root) root ≡ some e = subst (λ a. find a root ≡ some e) q by in
          let both : some e ≡ some root = sym by' ∙ find-this_self root in
          let same : e ≡ root = cc in
          absurd (
            ground (
              arith,
              folder-count f items (this f) hi,
              item_at-count items i e (this f) he,
              count-find (this f) root f (this f) hf,
              ap (count (this f)) same,
            ))

parent_index-find :
    (root f g : NoteEntity) (items : Items) (p a : Address)
    → find p root ≡ some f
    → parent_ f ≡ some a
    → find a root ≡ some g
    → items_of g ≡ some items
    → parent_index root p ≡ some (row_of p 0 items)
unfolding parent_index
parent_index-find root f g items p a hf hp hg hi = ground arith

module _ (m : NotesModel) (root : NoteEntity) (mr : m.notes ≡ some root) (i : QModelIndex)
    (e : NoteEntity) (p : Address) (he : find i.internal_pointer root ≡ some e)
    (hp : parent_ e ≡ some p) where
  parent-top : p ≡ this root → parent m (some i) ≡ some none
  unfolding parent
  parent-top q = ground arith

  parent-folder : p ≢ this root → parent m (some i) ≡ parent_index root p
  unfolding parent
  parent-folder other = ground arith

-- In a tree with right pointers and an address for each object, parent() of an index that index()
-- gives for an index of the model is that index.
pub parent-index :
    (m : NotesModel) (root : NoteEntity)
    → m.notes ≡ some root
    → IsTree root
    → {p : Option QModelIndex} (i : QModelIndex) (row column : ℤ) → IsIndex m p
    → index m row column p ≡ some (some i)
    → parent m (some i) ≡ some p
unfolding target
parent-index m root mr v i row column top h =
    let x = index-Placed m root none i row column mr h in
    let hf = target-find root v none x.f x.target_f in
    let here = found root v x.f x.e x.items i.row hf x.items_of_f x.item_at_row in
    let same : root ≡ x.f = ground (arith, x.target_f) in
    parent-top m root mr i x.e (this x.f)
      (subst (λ a. find a root ≡ some x.e) (sym x.points) here.0) here.1 (ap this (sym same))
parent-index m root mr v i row column (child {p = p} {i = j} row' column' k h') h =
    let x = index-Placed m root (some j) i row column mr h in
    let y = index-Placed m root p j row' column' mr h' in
    let hf = target-find root v (some j) x.f x.target_f in
    let here = found root v x.f x.e x.items i.row hf x.items_of_f x.item_at_row in
    let hg = target-find root v p y.f y.target_f in
    let above = found root v y.f y.e y.items j.row hg y.items_of_f y.item_at_row in
    let same : x.f ≡ y.e = ground (arith, x.target_f, y.points, above.0) in
    let up : parent_ x.e ≡ some (this y.e) = subst (λ g. parent_ x.e ≡ some (this g)) same here.1 in
    parent-folder m root mr i x.e (this y.e)
      (subst (λ a. find a root ≡ some x.e) (sym x.points) here.0) up above.2
    ∙ parent_index-find root y.e y.f y.items (this y.e) (this y.f) above.0 above.1 hg y.items_of_f
    ∙ ap some above.3
    ∙ ap (λ a. some (some (record { row = j.row; internal_pointer = a }))) (sym y.points)
