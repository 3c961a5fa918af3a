-- ===== src/Treeview/NotesModel/Tree.antt =====
-- treeview/src/notesmodel.cpp: objects by their addresses, in a tree in which no two have the same.
use cosec_examples.Prelude.{
  ℕ, zero, suc, ◌+◌, subst, ◌≤◌, ◌≡◌, refl, sym, inl, inr, ◌≢◌, Bool, Option, none, some, ◌==◌,
  if◌then◌else◌, arith, Option-cases, Bool-cases,
}
use cosec_examples.Treeview.Notes.{Address, NoteEntity, note, folder, Items, empty, item}
use cosec_examples.Treeview.NotesModel.{this, parent_, items_of, item_at, find, find_items, row_of}

abbrev pub one_if : Bool → ℕ
one_if b = if b then 1 else 0

-- How often an address stands in a tree.
unfoldable mutual
  pub count : Address → NoteEntity → ℕ
  count a (note b parent name text) = one_if (a == b)
  count a (folder b parent name items) = one_if (a == b) + count_items a items

  pub count_items : Address → Items → ℕ
  count_items a empty = 0
  count_items a (item e es) = count a e + count_items a es

-- The object has the parent, and what is in it has it as its parent.
unfoldable mutual
  pub Parented : Option Address → NoteEntity → Type 0
  Parented p (note b parent name text) = parent ≡ p
  Parented p (folder b parent name items) = (parent ≡ p) × ParentedItems (some b) items

  pub ParentedItems : Option Address → Items → Type 0
  ParentedItems p empty = Unit
  ParentedItems p (item e es) = Parented p e × ParentedItems p es

pub count-this : (e : NoteEntity) → 1 ≤ count (this e) e
unfolding count this
count-this (note b parent name text) = ground arith
count-this (folder b parent name items) = ground arith

pub find-this_self : (e : NoteEntity) → find (this e) e ≡ some e
unfolding find this
find-this_self (note b parent name text) = ground arith
find-this_self (folder b parent name items) = ground arith

mutual
  unfolding find find_items count count_items

  pub find-none : (a : Address) (e : NoteEntity) → count a e ≡ 0 → find a e ≡ none
  find-none a (note b parent name text) h = ground arith
  find-none a (folder b parent name items) h = ground (arith, find_items-none a items)

  pub find_items-none : (a : Address) (es : Items) → count_items a es ≡ 0 → find_items a es ≡ none
  find_items-none a empty h = refl
  find_items-none a (item e es) h = ground (arith, find-none a e, find_items-none a es)

mutual
  unfolding find find_items count count_items this

  pub find-this : (a : Address) (e : NoteEntity) (x : NoteEntity) → find a e ≡ some x → this x ≡ a
  find-this a (note b parent name text) x h = ground arith
  find-this a (folder b parent name items) x h = ground (arith, find_items-this a items x)

  pub find_items-this :
      (a : Address) (es : Items) (x : NoteEntity) → find_items a es ≡ some x → this x ≡ a
  find_items-this a empty x h = ground arith
  find_items-this a (item e es) x h = ground (arith, find-this a e x, find_items-this a es x)

mutual
  unfolding find find_items count count_items

  pub count-find :
      (a : Address) (e : NoteEntity) (x : NoteEntity) (b : Address)
      → find a e ≡ some x
      → count b x ≤ count b e
  count-find a (note c parent name text) x b h = ground arith
  count-find a (folder c parent name items) x b h = ground (arith, count-find_items a items x b)

  pub count-find_items :
      (a : Address) (es : Items) (x : NoteEntity) (b : Address)
      → find_items a es ≡ some x
      → count b x ≤ count_items b es
  count-find_items a empty x b h = ground arith
  count-find_items a (item e es) x b h =
      ground (arith, count-find a e x b, count-find_items a es x b)

pub item_at-count :
    (es : Items) (i : ℕ) (x : NoteEntity) (b : Address)
    → item_at es i ≡ some x
    → count b x ≤ count_items b es
unfolding item_at count_items
item_at-count empty i x b h = ground arith
item_at-count (item e es) zero x b h = ground arith
item_at-count (item e es) (suc i) x b h = ground (arith, item_at-count es i x b h)

-- An object in the list is the one that its address finds.
pub find-item_at :
    (es : Items) (i : ℕ) (x : NoteEntity)
    → item_at es i ≡ some x
    → count_items (this x) es ≤ 1
    → find_items (this x) es ≡ some x
unfolding item_at count_items find_items
find-item_at empty i x h few = ground arith
find-item_at (item e es) zero x h few =
    let same : e ≡ x = ground arith in
    subst (λ y. find_items (this y) (item e es) ≡ some y) same (ground (arith, find-this_self e))
find-item_at (item e es) (suc i) x h few =
    let inside : 1 ≤ count_items (this x) es =
      omega (arith, item_at-count es i x (this x) h, count-this x) in
    ground (arith, find-none (this x) e, find-item_at es i x h)

-- Its address stands at its own row first.
pub row_of-item_at :
    (es : Items) (i k : ℕ) (x : NoteEntity)
    → item_at es i ≡ some x
    → count_items (this x) es ≤ 1
    → row_of (this x) k es ≡ some (record { row = k + i; internal_pointer = this x })
unfolding item_at count_items row_of
row_of-item_at empty i k x h few = ground arith
row_of-item_at (item e es) zero k x h few = ground arith
row_of-item_at (item e es) (suc i) k x h few =
    let inside : 1 ≤ count_items (this x) es =
      omega (arith, item_at-count es i x (this x) h, count-this x) in
    let other : this e ≢ this x =
      λ q. absurd (omega (arith, subst (λ c. 1 ≤ count c e) q (count-this e))) in
    ground (arith, row_of-item_at es i (suc k) x h)

pub count-pos : (b : Address) (f x : NoteEntity) → find b f ≡ some x → 1 ≤ count b f
count-pos b f x h =
    subst (λ c. 1 ≤ count c f) (find-this b f x h)
      (omega (
        arith,
        count-this x,
        count-find (this x) f x (this x)
            (subst (λ c. find c f ≡ some x) (sym (find-this b f x h)) h),
      ))

-- What is found in what is found.
mutual
  unfolding find find_items count count_items

  pub find-find :
      (a b : Address) (e : NoteEntity) (f x : NoteEntity)
      → find a e ≡ some f
      → find b f ≡ some x
      → count b e ≤ 1
      → find b e ≡ some x
  find-find a b (note c parent name text) f x h h' few = ground arith
  find-find a b (folder c parent name items) f x h h' few =
      ground (arith, find_items-find a b items f x, count-find_items a items f b, count-pos b f x)

  pub find_items-find :
      (a b : Address) (es : Items) (f x : NoteEntity)
      → find_items a es ≡ some f
      → find b f ≡ some x
      → count_items b es ≤ 1
      → find_items b es ≡ some x
  find_items-find a b empty f x h h' few = ground arith
  find_items-find a b (item e es) f x h h' few = ground (
    arith,
    find-find a b e f x,
    find_items-find a b es f x,
    count-find_items a es f b,
    find-none b e,
    count-pos b f x,
  )

pub Parented-parent_ : (p : Option Address) (e : NoteEntity) → Parented p e → Parented (parent_ e) e
unfolding Parented parent_
Parented-parent_ p (note c parent name text) v = refl
Parented-parent_ p (folder c parent name items) v = (refl, v.1)

pub parent_-Parented : (p : Option Address) (e : NoteEntity) → Parented p e → parent_ e ≡ p
unfolding Parented parent_
parent_-Parented p (note c parent name text) v = v
parent_-Parented p (folder c parent name items) v = v.0

-- What is found has its parent, and what is in it has it as its parent.
mutual
  unfolding find find_items Parented ParentedItems

  pub Parented-find :
      (a : Address) (e : NoteEntity) (p : Option Address) (x : NoteEntity)
      → Parented p e
      → find a e ≡ some x
      → Parented (parent_ x) x
  Parented-find a (note c parent name text) p x v h =
      let same : note c parent name text ≡ x = ground arith in
      subst (λ y. Parented (parent_ y) y) same (Parented-parent_ p (note c parent name text) v)
  Parented-find a (folder c parent name items) p x v h = elim (Bool-cases (a == c)) [
    | inl e0 ↦
        let same : folder c parent name items ≡ x = ground arith in
        subst (λ y. Parented (parent_ y) y) same (Parented-parent_ p (folder c parent name items) v)
    | inr e1 ↦ ParentedItems-find_items a items (some c) x v.1 (ground arith)
  ]

  pub ParentedItems-find_items :
      (a : Address) (es : Items) (p : Option Address) (x : NoteEntity)
      → ParentedItems p es
      → find_items a es ≡ some x
      → Parented (parent_ x) x
  ParentedItems-find_items a empty p x v h = absurd (ground arith)
  ParentedItems-find_items a (item e es) p x v h = elim (Option-cases (find a e)) [
    | inl e0 ↦ ParentedItems-find_items a es p x v.1 (ground arith)
    | inr (y, e1) ↦ Parented-find a e p x v.0 (ground arith)
  ]

pub Parented-item_at :
    (es : Items) (i : ℕ) (p : Option Address) (x : NoteEntity)
    → ParentedItems p es
    → item_at es i ≡ some x
    → Parented p x
unfolding item_at ParentedItems
Parented-item_at empty i p x v h = absurd (ground arith)
Parented-item_at (item e es) zero p x v h = subst (λ y. Parented p y) (ground arith) v.0
Parented-item_at (item e es) (suc i) p x v h = Parented-item_at es i p x v.1 h

pub folder-count :
    (f : NoteEntity) (items : Items) (b : Address)
    → items_of f ≡ some items
    → count b f ≡ one_if (b == this f) + count_items b items
unfolding items_of count this
folder-count (note c parent name text) items b h = absurd (ground arith)
folder-count (folder c parent name es) items b h =
    let same : es ≡ items = ground arith in rw same refl

pub folder-find :
    (f : NoteEntity) (items : Items) (b : Address)
    → items_of f ≡ some items
    → b ≢ this f
    → find b f ≡ find_items b items
unfolding items_of find this
folder-find (note c parent name text) items b h other = absurd (ground arith)
folder-find (folder c parent name es) items b h other =
    let same : es ≡ items = ground arith in rw (← same) (ground arith)

pub folder-Parented :
    (f : NoteEntity) (items : Items) (q : Option Address)
    → items_of f ≡ some items
    → Parented q f
    → ParentedItems (some (this f)) items
unfolding items_of Parented this
folder-Parented (note c parent name text) items q h v = absurd (ground arith)
folder-Parented (folder c parent name es) items q h v =
    let same : es ≡ items = ground arith in subst (λ k. ParentedItems (some c) k) same v.1
