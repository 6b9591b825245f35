-- ===== src/Error/Origin.antt =====
-- `ErrorOrigin` of memflow/src/error.rs: the variants in their order, the texts and the discriminants.
use Prim.Native.String.{String}
use memflow.Prelude.{ℕ, ◌≡◌, refl, List, [], ◌∷◌, some, get_elem?}

pub data ErrorOrigin : Type 0 where
  pointer args args_validator memory mmu memory_map physical_memory virtual_translate cache :
      ErrorOrigin
  tlb_cache page_cache virtual_memory inventory connector os_layer ffi other : ErrorOrigin

-- `to_str`.
unfoldable pub to_str : ErrorOrigin → String
to_str pointer = "pointer"
to_str args = "args"
to_str args_validator = "args validator"
to_str memory = "memory"
to_str mmu = "mmu"
to_str memory_map = "memory map"
to_str physical_memory = "physical memory"
to_str virtual_translate = "virtual translate"
to_str cache = "cache"
to_str tlb_cache = "tlb cache"
to_str page_cache = "page cache"
to_str virtual_memory = "virtual memory"
to_str inventory = "inventory"
to_str connector = "connector"
to_str os_layer = "oslayer"
to_str ffi = "ffi"
to_str other = "other"

-- `self as i32`: the position of the variant.
unfoldable pub code : ErrorOrigin → ℕ
code pointer = 0
code args = 1
code args_validator = 2
code memory = 3
code mmu = 4
code memory_map = 5
code physical_memory = 6
code virtual_translate = 7
code cache = 8
code tlb_cache = 9
code page_cache = 10
code virtual_memory = 11
code inventory = 12
code connector = 13
code os_layer = 14
code ffi = 15
code other = 16

-- The variants by their `repr(u16)` discriminant, from 0.
abbrev pub variants : List ErrorOrigin
variants =
    pointer ∷ args ∷ args_validator ∷ memory ∷ mmu ∷ memory_map ∷ physical_memory
    ∷ virtual_translate ∷ cache ∷ tlb_cache ∷ page_cache ∷ virtual_memory ∷ inventory ∷ connector
    ∷ os_layer ∷ ffi ∷ other ∷ []

-- The discriminant is the position among the variants.
pub get_elem?-code : (v : ErrorOrigin) → get_elem? variants (code v) ≡ some v
unfolding code
get_elem?-code pointer = refl
get_elem?-code args = refl
get_elem?-code args_validator = refl
get_elem?-code memory = refl
get_elem?-code mmu = refl
get_elem?-code memory_map = refl
get_elem?-code physical_memory = refl
get_elem?-code virtual_translate = refl
get_elem?-code cache = refl
get_elem?-code tlb_cache = refl
get_elem?-code page_cache = refl
get_elem?-code virtual_memory = refl
get_elem?-code inventory = refl
get_elem?-code connector = refl
get_elem?-code os_layer = refl
get_elem?-code ffi = refl
get_elem?-code other = refl
