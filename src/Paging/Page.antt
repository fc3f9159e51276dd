-- ===== src/Paging/Page.antt =====
-- The bit fields of `struct vm_page`.
use james_m.Base.{ℕ, ◌<◌, ◌≡◌, arith}
use james_m.Paging.{VmPage, page_word, word_page}

-- Each field fits its width.
pub record IsPage (p : VmPage) : Type 0 where
  pub present : p.p_present < 2
  pub rw : p.p_rw < 2
  pub user : p.p_user < 2
  pub accessed : p.p_accessed < 2
  pub dirty : p.p_dirty < 2
  pub unused : p.p_unused < 128
  pub frame : p.p_frame < 1048576

pub page_word-lt : (p : VmPage) → page_word p < 4294967296
unfolding page_word
page_word-lt p = omega arith

pub word_page-page_word : (p : VmPage) → IsPage p → word_page (page_word p) ≡ p
unfolding word_page page_word
word_page-page_word p h = ground arith

pub page_word-word_page : (w : ℕ) → w < 4294967296 → page_word (word_page w) ≡ w
unfolding word_page page_word
page_word-word_page w h = omega arith

pub word_page-IsPage : (w : ℕ) → IsPage (word_page w)
unfolding word_page
word_page-IsPage w = omega arith
