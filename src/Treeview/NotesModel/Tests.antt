-- ===== src/Treeview/NotesModel/Tests.antt =====
-- treeview/src/notesmodel.cpp: a model with a folder of letters beside a note.
use cosec_examples.Prelude.{
  ◌<◌, ◌+◌, ℕ, ◌≤◌, ◌≡◌, refl, subst, true, false, Option, none, some, List, [], ◌∷◌, arith,
}
use cosec_examples.Treeview.Notes.{
  Address, Bytes, NoteEntity, note, folder, Items, empty, item, size, ok, write_items,
}
use cosec_examples.Treeview.Notes.RoundTrip.{contents_items, depth_items, FitsItems}
use cosec_examples.Treeview.Notes.Tests.{plain, plain-TakesBack, letters}
use cosec_examples.Treeview.NotesModel.{
  pos, negsuc, QModelIndex, NotesModel, Signal, begin_insert_rows, begin_remove_rows,
  end_insert_rows, this, items_of, find, change, target, index, parent, index_of, index_in, item_at,
  find_items, parent_,
}
use cosec_examples.Treeview.NotesModel.Tree.{count, Parented}
use cosec_examples.Treeview.NotesModel.Consistent.{IsTree, top, child, parent-index}
use cosec_examples.Treeview.NotesModel.Edit.{
  new_notes, with_folder, insert_new, Edited, insert_at, map_items, insert_rows, remove_rows,
}
use cosec_examples.Treeview.NotesModel.Edit.Rows.{Inv, insert_rows-Inv}
use cosec_examples.Treeview.NotesModel.Edit.Removed.{Lost, remove_rows-Lost}
use cosec_examples.Treeview.NotesModel.Drag.{
  entities, mime_data, serialized, same_parents, drop_mime_data, drop_row,
}
use cosec_examples.Treeview.NotesModel.Drag.Copied.{AdoptedItems, drop_mime_data-mime_data}

abbrev root : NoteEntity
root = folder 4 none (82 ∷ []) (item (note 3 (some 4) [] []) (item letters empty))

abbrev model : NotesModel
model = record { notes = some root; next = 7 }

abbrev at : ℕ → Address → Option QModelIndex
at r a = some (record { row = r; internal_pointer = a })

root-IsTree : IsTree root
unfolding count Parented
root-IsTree = record {
  parented = (refl, (refl, ((refl, (refl, tt)), tt)));
  once = λ a. ground arith;
}

model-Inv : Inv model
unfolding count
model-Inv r h =
    let same : root ≡ r = cc in
    subst (λ x. IsTree x × ((b : Address) → 7 ≤ b → count b x ≡ 0)) same
      (root-IsTree, λ b q. ground arith)

-- The note in the folder of letters, and the folder.
parent-index_example : parent model (at 0 6) ≡ some (at 1 5)
unfolding index index_of index_in target this items_of item_at find find_items
parent-index_example =
    parent-index model root refl root-IsTree (record { row = 0; internal_pointer = 6 }) (pos 0)
      (pos 0) (child (pos 1) (pos 0) top refl) refl

abbrev after : Option Edited → NotesModel
after none = model
after (some e) = e.1

insert_rows-Inv_example : Inv (after (insert_rows plain (pos 1) (pos 2) (at 1 5) model))
unfolding insert_rows with_folder target find find_items items_of insert_new new_notes size
insert_rows-Inv_example =
    insert_rows-Inv plain (pos 1) (pos 2) (at 1 5) model {b = true}
      {m' = after (insert_rows plain (pos 1) (pos 2) (at 1 5) model)}
      {s = begin_insert_rows (at 1 5) 1 3 ∷ end_insert_rows ∷ []} model-Inv refl

abbrev root_items : Items
root_items = item (note 3 (some 4) [] []) (item letters empty)

remove_rows-Lost_example :
    (0 + 1 ≤ size root_items
      → Inv model
      → (m' : NotesModel) × (remove_rows (pos 0) (pos 1) none model
          ≡ some (true, m', begin_remove_rows none 0 1 ∷ end_insert_rows ∷ []))
        × Lost root_items 0 1 none m'
        × Inv m')
    × (size root_items < 0 + 1 → remove_rows (pos 0) (pos 1) none model ≡ some (false, model, []))
unfolding target items_of
remove_rows-Lost_example =
    remove_rows-Lost model root root root_items none 0 0 refl refl refl (omega arith)

-- The folder of letters, dragged to the end of the root.
abbrev dragged : List QModelIndex
dragged = record { row = 1; internal_pointer = 5 } ∷ []

abbrev bytes : Bytes
bytes = 1 ∷ 1 ∷ 76 ∷ 1 ∷ 1 ∷ 1 ∷ 65 ∷ 0 ∷ 2 ∷ 1 ∷ 2 ∷ []

drop_mime_data-mime_data_example :
    (cs : Items) × (m' : NotesModel) × (s : List Signal) × (drop_mime_data plain 2 true bytes false
        (negsuc 0)
        false
        none
        model
      ≡ ok (some (true, m', s)))
    × (m'.notes ≡ some (change 4 (map_items (insert_at 2 cs)) root))
    × (contents_items cs ≡ contents_items (item letters empty))
    × AdoptedItems 4 cs
unfolding target find find_items items_of size this drop_row depth_items FitsItems entities
    mime_data serialized same_parents parent parent_ write_items
drop_mime_data-mime_data_example =
    drop_mime_data-mime_data plain plain-TakesBack 2 model root root
      (item (note 3 (some 4) [] []) (item letters empty)) (item letters empty) dragged bytes
      (negsuc 0) none refl refl refl (omega arith) ((omega arith, (tt, tt)), tt) refl refl
      (omega arith) (omega arith)
