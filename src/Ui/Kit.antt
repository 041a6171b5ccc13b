-- ===== src/Ui/Kit.antt =====
-- The parts of the interface kit (docs/src/components/ui) that keep no state, a module per file.
pub mod Accordion
pub mod AlertDialog
pub mod Alert
pub mod Attachment
pub mod Avatar
pub mod Badge
pub mod Breadcrumb
pub mod Bubble
pub mod ButtonGroup
pub mod Button
pub mod Card
pub mod Checkbox
pub mod Collapsible
pub mod Combobox
pub mod Command
pub mod ContextMenu
pub mod Dialog
pub mod Drawer
pub mod DropdownMenu
pub mod Empty
pub mod Field
pub mod HoverCard
pub mod InputGroup
pub mod InputOtp
pub mod Item
pub mod Kbd
pub mod Label
pub mod Marker
pub mod Menubar
pub mod MessageScroller
pub mod Message
pub mod NativeSelect
pub mod NavigationMenu
pub mod Pagination
pub mod Popover
pub mod Progress
pub mod RadioGroup
pub mod Resizable
pub mod ScrollArea
pub mod Select
pub mod Separator
pub mod Sheet
pub mod Skeleton
pub mod Spinner
pub mod Switch
pub mod Table
pub mod Tabs
pub mod Textarea
pub mod Toggle
pub mod Tooltip
