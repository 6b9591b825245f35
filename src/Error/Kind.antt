-- ===== src/Error/Kind.antt =====
-- `ErrorKind` of memflow/src/error.rs: the variants in their order, the texts and the discriminants.
use Prim.Native.String.{String}
use memflow.Prelude.{ℕ, ◌≡◌, refl, List, [], ◌∷◌, some, get_elem?}

pub data ErrorKind : Type 0 where
  uninitialized not_supported not_implemented configuration offset http arg_not_exists : ErrorKind
  arg_validation required_arg_not_found invalid_argument partial_data not_found out_of_bounds :
      ErrorKind
  out_of_memory_range encoding invalid_path read_only unable_to_read_dir unable_to_read_dir_entry :
      ErrorKind
  unable_to_read_file unable_to_create_directory unable_to_write_file unable_to_seek_file :
      ErrorKind
  unable_to_map_file memory_map_out_of_range unable_to_read_memory invalid_architecture : ErrorKind
  invalid_memory_size invalid_memory_size_unit unable_to_load_library invalid_exe_file : ErrorKind
  memflow_exports_not_found version_mismatch already_exists plugin_not_found target_not_found :
      ErrorKind
  invalid_abi unsupported_optional_feature process_not_found invalid_process_info : ErrorKind
  module_not_found export_not_found import_not_found section_not_found unknown : ErrorKind

-- `to_str`.
unfoldable pub to_str : ErrorKind → String
to_str uninitialized = "unitialized"
to_str not_supported = "not supported"
to_str not_implemented = "not implemented"
to_str configuration = "configuration error"
to_str offset = "offset error"
to_str http = "http error"
to_str arg_not_exists = "the given argument does not exist"
to_str arg_validation = "the argument could not be validated"
to_str required_arg_not_found = "required argument is not set"
to_str invalid_argument = "invalid argument passed"
to_str partial_data = "partial data"
to_str not_found = "not found"
to_str out_of_bounds = "out of bounds"
to_str out_of_memory_range = "out of memory range"
to_str encoding = "encoding error"
to_str invalid_path = "invalid path"
to_str read_only = "trying to write to a read only resource"
to_str unable_to_read_dir = "unable to read directory"
to_str unable_to_read_dir_entry = "unable to read directory entry"
to_str unable_to_read_file = "unable to read file"
to_str unable_to_create_directory = "unable to create directory"
to_str unable_to_write_file = "unable to write file"
to_str unable_to_seek_file = "unable to seek file"
to_str unable_to_map_file = "unable to map file"
to_str memory_map_out_of_range = "memory map is out of range"
to_str unable_to_read_memory = "unable to read memory"
to_str invalid_architecture = "invalid architecture"
to_str invalid_memory_size = "invalid memory size"
to_str invalid_memory_size_unit = "invalid memory size units (or none)"
to_str unable_to_load_library = "unable to load library"
to_str invalid_exe_file = "file is not a valid executable file"
to_str memflow_exports_not_found = "file does not contain any memflow exports"
to_str version_mismatch = "version mismatch"
to_str already_exists = "already exists"
to_str plugin_not_found = "plugin not found"
to_str target_not_found = "specified (connector) target could not be found"
to_str invalid_abi = "invalid plugin ABI"
to_str unsupported_optional_feature = "unsupported optional feature"
to_str process_not_found = "process not found"
to_str invalid_process_info = "invalid process info"
to_str module_not_found = "module not found"
to_str export_not_found = "export not found"
to_str import_not_found = "import not found"
to_str section_not_found = "section not found"
to_str unknown = "unknown error"

-- `self as i32`: the position of the variant.
unfoldable pub code : ErrorKind → ℕ
code uninitialized = 0
code not_supported = 1
code not_implemented = 2
code configuration = 3
code offset = 4
code http = 5
code arg_not_exists = 6
code arg_validation = 7
code required_arg_not_found = 8
code invalid_argument = 9
code partial_data = 10
code not_found = 11
code out_of_bounds = 12
code out_of_memory_range = 13
code encoding = 14
code invalid_path = 15
code read_only = 16
code unable_to_read_dir = 17
code unable_to_read_dir_entry = 18
code unable_to_read_file = 19
code unable_to_create_directory = 20
code unable_to_write_file = 21
code unable_to_seek_file = 22
code unable_to_map_file = 23
code memory_map_out_of_range = 24
code unable_to_read_memory = 25
code invalid_architecture = 26
code invalid_memory_size = 27
code invalid_memory_size_unit = 28
code unable_to_load_library = 29
code invalid_exe_file = 30
code memflow_exports_not_found = 31
code version_mismatch = 32
code already_exists = 33
code plugin_not_found = 34
code target_not_found = 35
code invalid_abi = 36
code unsupported_optional_feature = 37
code process_not_found = 38
code invalid_process_info = 39
code module_not_found = 40
code export_not_found = 41
code import_not_found = 42
code section_not_found = 43
code unknown = 44

-- The variants by their `repr(u16)` discriminant, from 0.
abbrev pub variants : List ErrorKind
variants =
    uninitialized ∷ not_supported ∷ not_implemented ∷ configuration ∷ offset ∷ http ∷ arg_not_exists
    ∷ arg_validation ∷ required_arg_not_found ∷ invalid_argument ∷ partial_data ∷ not_found
    ∷ out_of_bounds ∷ out_of_memory_range ∷ encoding ∷ invalid_path ∷ read_only ∷ unable_to_read_dir
    ∷ unable_to_read_dir_entry ∷ unable_to_read_file ∷ unable_to_create_directory
    ∷ unable_to_write_file ∷ unable_to_seek_file ∷ unable_to_map_file ∷ memory_map_out_of_range
    ∷ unable_to_read_memory ∷ invalid_architecture ∷ invalid_memory_size ∷ invalid_memory_size_unit
    ∷ unable_to_load_library ∷ invalid_exe_file ∷ memflow_exports_not_found ∷ version_mismatch
    ∷ already_exists ∷ plugin_not_found ∷ target_not_found ∷ invalid_abi
    ∷ unsupported_optional_feature ∷ process_not_found ∷ invalid_process_info ∷ module_not_found
    ∷ export_not_found ∷ import_not_found ∷ section_not_found ∷ unknown ∷ []

-- The discriminant is the position among the variants.
pub get_elem?-code : (v : ErrorKind) → get_elem? variants (code v) ≡ some v
unfolding code
get_elem?-code uninitialized = refl
get_elem?-code not_supported = refl
get_elem?-code not_implemented = refl
get_elem?-code configuration = refl
get_elem?-code offset = refl
get_elem?-code http = refl
get_elem?-code arg_not_exists = refl
get_elem?-code arg_validation = refl
get_elem?-code required_arg_not_found = refl
get_elem?-code invalid_argument = refl
get_elem?-code partial_data = refl
get_elem?-code not_found = refl
get_elem?-code out_of_bounds = refl
get_elem?-code out_of_memory_range = refl
get_elem?-code encoding = refl
get_elem?-code invalid_path = refl
get_elem?-code read_only = refl
get_elem?-code unable_to_read_dir = refl
get_elem?-code unable_to_read_dir_entry = refl
get_elem?-code unable_to_read_file = refl
get_elem?-code unable_to_create_directory = refl
get_elem?-code unable_to_write_file = refl
get_elem?-code unable_to_seek_file = refl
get_elem?-code unable_to_map_file = refl
get_elem?-code memory_map_out_of_range = refl
get_elem?-code unable_to_read_memory = refl
get_elem?-code invalid_architecture = refl
get_elem?-code invalid_memory_size = refl
get_elem?-code invalid_memory_size_unit = refl
get_elem?-code unable_to_load_library = refl
get_elem?-code invalid_exe_file = refl
get_elem?-code memflow_exports_not_found = refl
get_elem?-code version_mismatch = refl
get_elem?-code already_exists = refl
get_elem?-code plugin_not_found = refl
get_elem?-code target_not_found = refl
get_elem?-code invalid_abi = refl
get_elem?-code unsupported_optional_feature = refl
get_elem?-code process_not_found = refl
get_elem?-code invalid_process_info = refl
get_elem?-code module_not_found = refl
get_elem?-code export_not_found = refl
get_elem?-code import_not_found = refl
get_elem?-code section_not_found = refl
get_elem?-code unknown = refl
