-- ===== src/Types/PageLaws.antt =====
-- The page flags that `write`, `noexec` and `page_table` set and keep.
use memflow.Prelude.{◌<◌, ◌≡◌, refl, Bool, true, false, not, ◌&&◌, arith}
use memflow.Prelude.Bits.{all_below, all_below_sound, all_from}
use memflow.Types.Page.{
  PageType, unknown, page_table_flag, writeable, read_only, noexec_flag, contains, write, noexec,
}

abbrev same : Bool → Bool → Bool
same true b = b
same false b = not b

-- What the two theorems below state of one page type, as a test.
wrote : PageType → Bool → Bool
wrote t flag =
    let u = write t flag in
    same (contains u writeable) flag
    && same (contains u read_only) (not flag)
    && same (contains u unknown) false
    && same (contains u page_table_flag) (contains t page_table_flag)
    && same (contains u noexec_flag) (contains t noexec_flag)

noexeced : PageType → Bool → Bool
noexeced t flag =
    let u = noexec t flag in
    same (contains u noexec_flag) flag
    && same (contains u writeable) (contains t writeable)
    && same (contains u read_only) (contains t read_only)
    && same (contains u unknown) (contains t unknown)
    && same (contains u page_table_flag) (contains t page_table_flag)

write_table : (flag : Bool) → all_below 32 (λ t. wrote t flag) ≡ true
unfolding all_from wrote write
write_table true = refl
write_table false = refl

noexec_table : (flag : Bool) → all_below 32 (λ t. noexeced t flag) ≡ true
unfolding all_from noexeced noexec
noexec_table true = refl
noexec_table false = refl

-- For any of the 32 page types: after `write` exactly one of the access flags is set, "unknown" is
-- cleared, and the page table and no-execute flags are as before.
write_flags :
    (t : PageType) (flag : Bool)
    → t < 32
    → (contains (write t flag) writeable ≡ flag)
      × (contains (write t flag) read_only ≡ not flag)
      × (contains (write t flag) unknown ≡ false)
      × (contains (write t flag) page_table_flag ≡ contains t page_table_flag)
      × (contains (write t flag) noexec_flag ≡ contains t noexec_flag)
unfolding wrote
write_flags t flag h =
    let entry = all_below_sound 32 (λ u. wrote u flag) t (write_table flag) h in ground arith

-- For any of the 32 page types: `noexec` sets the no-execute flag as asked and leaves every other flag.
noexec_flags :
    (t : PageType) (flag : Bool)
    → t < 32
    → (contains (noexec t flag) noexec_flag ≡ flag)
      × (contains (noexec t flag) writeable ≡ contains t writeable)
      × (contains (noexec t flag) read_only ≡ contains t read_only)
      × (contains (noexec t flag) unknown ≡ contains t unknown)
      × (contains (noexec t flag) page_table_flag ≡ contains t page_table_flag)
unfolding noexeced
noexec_flags t flag h =
    let entry = all_below_sound 32 (λ u. noexeced u flag) t (noexec_table flag) h in ground arith
