-- ===== src/Ui.antt =====
-- The component library of app/frontend/components/ui.
pub mod Cn
pub mod Contract
pub mod Part
pub mod Alert
pub mod Avatar
pub mod Badge
pub mod Breadcrumb
pub mod Button
pub mod Card
pub mod Checkbox
pub mod DropdownMenu
pub mod Empty
pub mod Field
pub mod Icons
pub mod Input
pub mod Label
pub mod Message
pub mod Pagination
pub mod Select
pub mod Separator
pub mod Sheet
pub mod Skeleton
pub mod Table
pub mod Tooltip
pub mod Accordion
pub mod AlertDialog
pub mod AspectRatio
pub mod ButtonGroup
pub mod Collapsible
pub mod ContextMenu
pub mod Dialog
pub mod HoverCard
pub mod InputGroup
pub mod Item
pub mod Kbd
pub mod Marker
pub mod Menubar
pub mod NavigationMenu
pub mod Popover
pub mod RadioGroup
pub mod ScrollArea
pub mod Switch
pub mod Tabs
pub mod Textarea
pub mod Toggle
pub mod Slider
pub mod Progress
pub mod Spinner
pub mod DataTable
pub mod Direction
pub mod Title
pub mod ToggleGroup
