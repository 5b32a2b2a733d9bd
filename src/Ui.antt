-- ===== src/Ui.antt =====
-- lib/ui and app: the widgets whose state is more than what they draw.
pub mod Tabs
pub mod TextInput
pub mod Scrollable
pub mod Stack
