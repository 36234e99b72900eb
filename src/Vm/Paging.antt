-- ===== src/Vm/Paging.antt =====
-- The page arithmetic that the headers define (mm/page.h, mm/mm.h), which are not part of the
-- repository: a parameter, with the laws that the code relies on.
use weenix.Prelude.{ℕ, ◌+◌, ◌*◌, ◌^◌, ◌≤◌, ◌<◌, ◌≡◌, Bool, true}
use weenix.Vm.Area.{Layout}

pub record Paging : Type 0 where
  pub page_size : ℕ
  pub user_mem_low : ℕ
  pub user_mem_high : ℕ
  pub addr_to_pn : ℕ → ℕ
  pub pn_to_addr : ℕ → ℕ
  pub page_align_up : ℕ → ℕ
  pub page_aligned : ℕ → Bool
  pub page_offset : ℕ → ℕ

-- `addr_to_pn` is the page of an address and `page_align_up` the least aligned address at or above.
pub record IsPaging (pg : Paging) : Type 0 where
  pub size_pos : 0 < pg.page_size
  pub pn_le : (a : ℕ) → pg.addr_to_pn a * pg.page_size ≤ a
  pub lt_pn : (a : ℕ) → a < (pg.addr_to_pn a + 1) * pg.page_size
  pub pn_of_pn : (n : ℕ) → n * pg.page_size < 2 ^ 32 → pg.addr_to_pn (pg.pn_to_addr n) ≡ n
  pub aligned : (a : ℕ) → pg.page_aligned a ≡ true → pg.addr_to_pn a * pg.page_size ≡ a
  pub pn_mono : (a b : ℕ) → a ≤ b → pg.addr_to_pn a ≤ pg.addr_to_pn b
  pub up_le :
      (a b : ℕ) → a ≤ b → pg.addr_to_pn (pg.page_align_up a) ≤ pg.addr_to_pn (pg.page_align_up b)
  pub pn_le_up : (a : ℕ) → pg.addr_to_pn a ≤ pg.addr_to_pn (pg.page_align_up a)
  pub up_aligned : (a : ℕ) → pg.page_aligned a ≡ true → pg.page_align_up a ≡ a
  pub offset_lem : (a : ℕ) → pg.addr_to_pn a * pg.page_size + pg.page_offset a ≡ a
  pub high_aligned : pg.page_aligned pg.user_mem_high ≡ true
  pub high_word : pg.user_mem_high < 2 ^ 32
  pub high_pages : pg.addr_to_pn pg.user_mem_high < 2 ^ 31

abbrev pub layout : Paging → Layout
layout pg = record { low = pg.addr_to_pn pg.user_mem_low; high = pg.addr_to_pn pg.user_mem_high }
