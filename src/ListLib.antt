-- ===== src/ListLib.antt =====
-- The linked lists of list.c and kerninc/list.h, a copy of another project's library: an interface
-- with the behaviour that its comments document. Elements are told apart by numbers, and so are
-- lists.
mod Members
pub mod Sequences
unfoldable pub use Members.*
use osvirt_project.Base.{ℕ, ◌≡◌, ◌≢◌, true, false, List, [], ◌∷◌, ◌++◌}

-- `items` is what a traversal from `list_begin` by `list_next` to `list_end` meets. So a list is
-- empty if it has no items, and its front is the first of them.
pub record ListLib : Type 1 where
  pub Links : Type 0
  pub items : Links → ℕ → List ℕ
  pub list_init : ℕ → Links → Links
  pub list_push_back : (list elem : ℕ) → Links → Links
  pub list_remove : (elem : ℕ) → Links → Links
  -- "Initializes LIST as an empty list."
  pub items-init_self : (l : ℕ) (s : Links) → items (list_init l s) l ≡ []
  pub items-init_other : (l k : ℕ) (s : Links) → k ≢ l → items (list_init l s) k ≡ items s k
  -- "Inserts ELEM at the end of LIST, so that it becomes the back in LIST": an element that is in no
  -- list.
  pub items-push_back_self :
      (l e : ℕ) (s : Links)
      → ((k : ℕ) → has e (items s k) ≡ false)
      → items (list_push_back l e s) l ≡ items s l ++ (e ∷ [])
  pub items-push_back_other :
      (l e k : ℕ) (s : Links)
      → ((k : ℕ) → has e (items s k) ≡ false)
      → k ≢ l
      → items (list_push_back l e s) k ≡ items s k
  -- "Removes ELEM from its list": an element that is in a list.
  pub items-remove :
      (l e k : ℕ) (s : Links)
      → has e (items s l) ≡ true
      → items (list_remove e s) k ≡ without e (items s k)
