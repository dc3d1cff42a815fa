-- ===== src/Linked.antt =====
-- The doubly linked lists of cxx/quickjs/list.h, which the engine keeps its objects, jobs and scopes
-- in. The store has the two links of every node; a node is a number, and 0 is NULL.
pub mod Ring
pub mod Changes
pub mod Lists
mod Runs
use flutter_quickjs.Prelude.{ℕ, zero, suc, ◌≡◌, Bool, true, false, if◌then◌else◌, ◌==◌}

-- `struct list_head`, of all nodes.
pub record Links : Type 0 where
  pub prev : ℕ → ℕ
  pub next : ℕ → ℕ

-- `p->field = v`
unfoldable pub write : (ℕ → ℕ) → ℕ → ℕ → ℕ → ℕ
write field p v = λ q. if q == p then v else field q

unfoldable pub init_list_head : Links → (head : ℕ) → Links
init_list_head s head = record { prev = write s.prev head head; next = write s.next head head }

-- `__list_add`
unfoldable pub list_add_between : Links → (el prev next : ℕ) → Links
list_add_between s el prev next = record {
  next = write (write s.next prev el) el next;
  prev = write (write s.prev el prev) next el;
}

unfoldable pub list_add : Links → (el head : ℕ) → Links
list_add s el head = list_add_between s el head (s.next head)

unfoldable pub list_add_tail : Links → (el head : ℕ) → Links
list_add_tail s el head = list_add_between s el (s.prev head) head

-- The last two writes are the ones of NULL to `el`.
unfoldable pub list_del : Links → (el : ℕ) → Links
list_del s el = record {
  next = write (write s.next (s.prev el) (s.next el)) el 0;
  prev = write (write s.prev (s.next el) (s.prev el)) el 0;
}

unfoldable pub list_empty : Links → (el : ℕ) → Bool
list_empty s el = s.next el == el
