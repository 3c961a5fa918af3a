-- ===== src/Treeview/Notes/RoundTrip.antt =====
-- treeview/src/notes.cpp: operator>> after operator<<.
use cosec_examples.Prelude.{
  ℕ, zero, suc, ◌%◌, ◌^◌, ◌≤◌, ◌<◌, ◌≡◌, refl, ap, ◌∙◌, Bool, true, false, Option, none, ◌++◌,
  append_assoc, ltb, max, arith,
}
use cosec_examples.Treeview.Notes.{
  QString, Address, Bytes, Qt, NoteEntity, note, folder, Items, empty, item, size, set_name,
  Outcome, ok, and_then, write, write_items, read_note, read_items, read_folder, read_entity, named,
  read,
}

-- What QDataStream's operators do: >> takes back what << has put at the front of the stream.
pub record TakesBack (qt : Qt) : Type 0 where
  pub string : (s : QString) (rest : Bytes) → qt.get_string (qt.put_string s ++ rest) ≡ (s, rest)
  pub bool : (b : Bool) (rest : Bytes) → qt.get_bool (qt.put_bool b ++ rest) ≡ (b, rest)
  pub int : (n : ℕ) (rest : Bytes) → n < 2 ^ 32 → qt.get_int (qt.put_int n ++ rest) ≡ (n, rest)

unfoldable mutual
  -- How deep the folders go.
  pub depth : NoteEntity → ℕ
  depth (note this parent name text) = 1
  depth (folder this parent name items) = suc (depth_items items)

  pub depth_items : Items → ℕ
  depth_items empty = 0
  depth_items (item e es) = max (depth e) (depth_items es)

-- The sizes fit an int.
unfoldable mutual
  pub Fits : NoteEntity → Type 0
  Fits (note this parent name text) = Unit
  Fits (folder this parent name items) = (size items < 2 ^ 31) × FitsItems items

  pub FitsItems : Items → Type 0
  FitsItems empty = Unit
  FitsItems (item e es) = Fits e × FitsItems es

-- What a user sees of a tree: not where its objects are, nor whom they point to.
unfoldable mutual
  pub contents : NoteEntity → NoteEntity
  contents (note this parent name text) = note 0 none name text
  contents (folder this parent name items) = folder 0 none name (contents_items items)

  pub contents_items : Items → Items
  contents_items empty = empty
  contents_items (item e es) = item (contents e) (contents_items es)

-- No object of the tree has a parent.
unfoldable mutual
  pub Orphaned : NoteEntity → Type 0
  Orphaned (note this parent name text) = parent ≡ none
  Orphaned (folder this parent name items) = (parent ≡ none) × OrphanedItems items

  pub OrphanedItems : Items → Type 0
  OrphanedItems empty = Unit
  OrphanedItems (item e es) = Orphaned e × OrphanedItems es

-- `o` is a copy of `e`, and the rest of the stream.
abbrev Copied : NoteEntity → Bytes → Outcome (NoteEntity × Bytes × Address) → Type 0
Copied e rest o =
    (c : NoteEntity) × (next : Address) × (o ≡ ok (c, rest, next))
    × (contents c ≡ contents e)
    × Orphaned c

abbrev CopiedItems : Items → Bytes → Outcome (Items × Bytes × Address) → Type 0
CopiedItems es rest o =
    (cs : Items) × (next : Address) × (o ≡ ok (cs, rest, next))
    × (contents_items cs ≡ contents_items es)
    × OrphanedItems cs

module _ (qt : Qt) (law : TakesBack qt) where
  read_note-Copied :
      (this : Address) (parent : Option Address) (name text : QString) (rest : Bytes)
      (next : Address)
      → Copied
          (note this parent name text)
          rest
          (named name (read_note qt (qt.put_string text ++ rest) next))
  unfolding read_note named and_then set_name contents Orphaned
  read_note-Copied this parent name text rest next =
      rw (law.string text rest) (note next none name text, suc next, refl, refl, refl)

  read_head :
      (fuel : ℕ) (name : QString) (b : Bool) (rest : Bytes) (next : Address)
      → read qt (suc fuel) (qt.put_string name ++ (qt.put_bool b ++ rest)) next
        ≡ named name (elim b [
          | true ↦ read_folder qt (read qt fuel) rest next
          | false ↦ read_note qt rest next
        ])
  unfolding read read_entity
  read_head fuel name b rest next =
      ap (λ p. named p.0 (read_entity qt (read qt fuel) p.1 next))
        (law.string name (qt.put_bool b ++ rest))
      ∙ ap
          (λ p. named name (elim p.0 [
            | true ↦ read_folder qt (read qt fuel) p.1 next
            | false ↦ read_note qt p.1 next
          ]))
          (law.bool b rest)

  read_folder-ok :
      (fuel : ℕ) (items : Items) (rest : Bytes) (next : Address) {cs : Items} {next' : Address}
      → size items < 2 ^ 31
      → read_items (read qt fuel) (size items) (write_items qt items ++ rest) (suc next)
        ≡ ok (cs, rest, next')
      → read_folder qt
          (read qt fuel)
          (qt.put_int (size items % 2 ^ 32) ++ (write_items qt items ++ rest))
          next
        ≡ ok (folder next none qt.folder_name cs, rest, next')
  unfolding read_folder and_then
  read_folder-ok fuel items rest next few e =
      let small : size items % 2 ^ 32 ≡ size items = omega arith in
      let yes : ltb (size items) (2 ^ 31) ≡ true = ground arith in
      rw (small, law.int (size items) (write_items qt items ++ rest) (omega arith), yes, e) refl

  read_folder-Copied :
      (fuel : ℕ) (this : Address) (parent : Option Address) (name : QString) (items : Items)
      (rest : Bytes) (next : Address)
      → size items < 2 ^ 31
      → CopiedItems items rest
          (read_items (read qt fuel) (size items) (write_items qt items ++ rest) (suc next))
      → Copied (folder this parent name items) rest (
          named name (
            read_folder qt
              (read qt fuel)
              (qt.put_int (size items % 2 ^ 32) ++ (write_items qt items ++ rest))
              next))
  unfolding contents Orphaned named set_name and_then
  read_folder-Copied fuel this parent name items rest next few (cs, next', e, same, orphaned) = (
    folder next none name cs,
    next',
    ap (named name) (read_folder-ok fuel items rest next few e),
    rw same refl,
    (refl, orphaned),
  )

  read_items-item :
      (e : NoteEntity) (es : Items) (fuel : ℕ) (rest : Bytes) (next : Address)
      → Copied e
          (write_items qt es ++ rest)
          (read qt fuel (write qt e ++ (write_items qt es ++ rest)) next)
      → ((next' : Address)
          → CopiedItems es rest
              (read_items (read qt fuel) (size es) (write_items qt es ++ rest) next'))
      → CopiedItems (item e es) rest (
          read_items
            (read qt fuel)
            (suc (size es))
            (write qt e ++ (write_items qt es ++ rest))
            next)
  unfolding read_items and_then contents_items OrphanedItems
  read_items-item e es fuel rest next (c, next', first, same, alone) copy =
      let (cs, next'', others, same', alone') = copy next' in
      (item c cs, next'', rw (first, others) refl, rw (same, same') refl, (alone, alone'))

  mutual
    unfolding contents contents_items Orphaned OrphanedItems write write_items size depth read_items
        depth_items Fits FitsItems

    entity :
        (e : NoteEntity) (fuel : ℕ) (rest : Bytes) (next : Address)
        → depth e ≤ fuel
        → Fits e
        → Copied e rest (read qt fuel (write qt e ++ rest) next)
    entity (note this parent name text) zero rest next h fits = elim h [ ]
    entity (note this parent name text) (suc fuel) rest next h fits =
        rw (append_assoc, append_assoc, read_head fuel name false (qt.put_string text ++ rest) next)
          (read_note-Copied this parent name text rest next)
    entity (folder this parent name items) zero rest next h fits = elim h [ ]
    entity (folder this parent name items) (suc fuel) rest next h fits =
        rw (append_assoc, append_assoc, append_assoc, read_head fuel name true _ next)
          (read_folder-Copied fuel this parent name items rest next fits.0
            (read_items-write_items items fuel rest (suc next) (omega arith) fits.1))

    read_items-write_items :
        (es : Items) (fuel : ℕ) (rest : Bytes) (next : Address)
        → depth_items es ≤ fuel
        → FitsItems es
        → CopiedItems es rest (read_items (read qt fuel) (size es) (write_items qt es ++ rest) next)
    read_items-write_items empty fuel rest next h fits = (empty, next, refl, refl, tt)
    read_items-write_items (item e es) fuel rest next h fits = rw (append_assoc) (
        read_items-item e es fuel rest next (entity e fuel _ next (omega arith) fits.0)
          (λ next'. read_items-write_items es fuel rest next' (omega arith) fits.1))

  -- What operator<< has put at the front of a stream, operator>> takes back, the rest of the stream
  -- left, if no folder has more items than an int counts and the fuel is the depth of the folders or
  -- more: a tree with the same names, texts and order, in which no object knows its folder.
  pub read-write :
      (e : NoteEntity) (fuel : ℕ) (rest : Bytes) (next : Address)
      → depth e ≤ fuel
      → Fits e
      → (c : NoteEntity) × (next' : Address) × (read qt fuel (write qt e ++ rest) next
          ≡ ok (c, rest, next'))
        × (contents c ≡ contents e)
        × Orphaned c
  read-write = entity
