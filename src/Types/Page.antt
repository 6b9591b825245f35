-- ===== src/Types/Page.antt =====
-- memflow/src/types/page.rs. A `PageType` is its `u8` of flags; the `bitflags` operators are
-- those of the bits, and `!` keeps to the declared flags.
use memflow.Prelude.{ℕ, ◌-◌, bit_and, bit_or, Bool, ◌&&◌, not, ◌==◌, if◌then◌else◌}
use memflow.Types.Address
use memflow.Types.Address.{Address}

abbrev pub PageType : Type 0
PageType = ℕ

abbrev pub unknown : PageType
unknown = 1

abbrev pub page_table_flag : PageType
page_table_flag = 2

abbrev pub writeable : PageType
writeable = 4

abbrev pub read_only : PageType
read_only = 8

abbrev pub noexec_flag : PageType
noexec_flag = 16

abbrev pub all_flags : PageType
all_flags = 31

abbrev pub complement : PageType → PageType
complement t = bit_and all_flags (255 - t)

abbrev pub contains : PageType → PageType → Bool
contains t flag = bit_and t flag == flag

unfoldable pub write : PageType → Bool → PageType
write t flag =
    let cleared = bit_and t (complement (bit_or writeable (bit_or read_only unknown))) in
    if flag then bit_or cleared writeable else bit_or cleared read_only

unfoldable pub noexec : PageType → Bool → PageType
noexec t flag =
    let cleared = bit_and t (complement noexec_flag) in
    if flag then bit_or cleared noexec_flag else cleared

unfoldable pub page_table : PageType → Bool → PageType
page_table t flag =
    let cleared = bit_and t (complement (bit_or page_table_flag unknown)) in
    if flag then bit_or cleared page_table_flag else cleared

pub record Page : Type 0 where
  pub page_type : PageType
  pub page_base : Address
  pub page_size : ℕ

-- `Page::INVALID`.
abbrev pub invalid : Page
invalid = record { page_type = unknown; page_base = Address.invalid; page_size = 0 }

unfoldable pub is_valid : Page → Bool
unfolding Address.is_valid
is_valid p = Address.is_valid p.page_base && not (p.page_size == 0)
