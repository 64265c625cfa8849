-- ===== src/LinkedList.antt =====
-- kernel/inc/common/list.h: doubly linked lists through the fields `next` and `prev` of their entries.
-- An entry is its address; the list's head is an entry as well, and an empty list is a head that
-- points to itself.
pub mod Ring
mod Tests
use k_os.Base.{ℕ, Bool, not, ◌&&◌, ◌==◌, if◌then◌else◌}

-- `struct list_head`, for every entry
pub record Links : Type 0 where
  pub next : ℕ → ℕ
  pub prev : ℕ → ℕ

-- `a->next = b`
unfoldable pub set_next : Links → ℕ → ℕ → Links
set_next l a b = record l { next = λ x. if x == a then b else l.next x }

-- `a->prev = b`
unfoldable pub set_prev : Links → ℕ → ℕ → Links
set_prev l a b = record l { prev = λ x. if x == a then b else l.prev x }

-- `list_init`
unfoldable pub list_init : Links → ℕ → Links
list_init l entry = set_prev (set_next l entry entry) entry entry

-- `list_empty`
unfoldable pub list_empty : Links → ℕ → Bool
list_empty l head = l.next head == head

-- `list_is_singular`
unfoldable pub list_is_singular : Links → ℕ → Bool
list_is_singular l head = not (list_empty l head) && (l.next head == l.prev head)

-- `list_insert`
unfoldable pub list_insert : Links → ℕ → ℕ → ℕ → Links
list_insert l new before behind =
    set_next (set_prev (set_next (set_prev l behind new) new behind) new before) before new

-- `list_add`
unfoldable pub list_add : Links → ℕ → ℕ → Links
list_add l new old = list_insert l new old (l.next old)

-- `list_add_before`
unfoldable pub list_add_before : Links → ℕ → ℕ → Links
list_add_before l new old = list_insert l new (l.prev old) old

-- `list_join`
unfoldable pub list_join : Links → ℕ → ℕ → Links
list_join l first second = set_prev (set_next l first second) second first

-- `list_rm`
unfoldable pub list_rm : Links → ℕ → Links
list_rm l entry = list_join l (l.prev entry) (l.next entry)

-- `list_move`
unfoldable pub list_move : Links → ℕ → ℕ → Links
list_move l entry head = list_add (list_rm l entry) entry head

-- `list_move_before`
unfoldable pub list_move_before : Links → ℕ → ℕ → Links
list_move_before l entry head = list_add_before (list_rm l entry) entry head

-- `list_rotate_left`
unfoldable pub list_rotate_left : Links → ℕ → Links
list_rotate_left l head =
    if not (list_empty l head) then list_move_before l (l.next head) head else l
