-- ===== src/Collections/Singly/Cursors/Removals.antt =====
-- `drain` of a `SinglyLinkedList` (src/shared/collections/src/linked_list/singly.rs).
use vanadinite.Collections.Store.{Store}
