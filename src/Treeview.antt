-- ===== src/Treeview.antt =====
-- treeview/src: the notes, their serialization and the item model.
pub mod Notes
pub mod NotesModel
