-- ===== src/GuiProgress.antt =====
-- gui-progress/src: a file is copied in a thread of its own, with its progress shown.
pub mod FileCopier
pub mod CopyWidget
