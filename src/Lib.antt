-- ===== src/Lib.antt =====
-- memflow: reading and writing the memory of a machine, through physical memory, page tables and
-- caches.
--
-- Error (memflow/src/error.rs): the error type. Every operation that can fail answers with it; the
-- plugins pass it to foreign callers as an integer code.
--
-- Types (memflow/src/types/address.rs, page.rs, physical_address.rs, mem_units.rs): an address is a
-- number below 2 ^ 64, and a physical address remembers the type and the size of its page. `umem`
-- is `u64` and `usize` has 64 bits, the default features. Arithmetic wraps as in a release build.
--
-- Iter (memflow/src/iter/page_chunks.rs, mod.rs): buffers that can be split, and their chunks by
-- pages. Iter.Split has the trait and its implementations, Iter.Cells what a split promises: a
-- value stands for a list of cells, and a split cuts that list in two. Iter.Chunks has the iterator;
-- its loop takes as many rounds of fuel as the buffer has units, which is enough, since each round
-- lengthens the chunk by at least one unit.
--
-- Mmu (memflow/src/mem/virt_translate/mmu/def.rs, spec.rs, translate_data.rs, and the descriptions in
-- memflow/src/architecture): the tables of a memory management unit, the steps of the page walk, and
-- the filter that drops the virtual ranges that no page table can map. Mmu.Def and Mmu.Spec have
-- the description and its tables, Mmu.Arch the four architectures, Mmu.TranslateData the stack of
-- pieces, Mmu.Filter the filter, Mmu.SplitChunk the split of a chunk for the next tables; its outer
-- loop takes one round for each table entry of the range. Mmu.Walk has the stages of the walk: the chunk
-- that starts it, the read of the table entries, and the verdict on each chunk. Mmu.Refill has
-- `refill_stack`, whose loop takes two rounds more than there are waiting chunks, since a round takes
-- a chunk off or fills the working stack. Mmu.Iterate has the loop of
-- `virt_to_phys_iter`, which composes the stages: one round is a function, and the loop a relation of
-- rounds, without fuel. The physical memory and the callback's answer to a failed read are parameters,
-- and the capacities of the stacks arguments: how the buffer is cut into them is not modelled.
--
-- Cache (memflow/src/types/cache, memflow/src/mem/virt_translate/cache/tlb_cache.rs): the validators
-- that say how long a slot of a cache is valid, and the translation cache over any validator. The
-- translator's table id is a function, and an architecture its page size. The validator that reads
-- a clock is not modelled.
--
-- MemMap (memflow/src/mem/mem_map.rs): the list of mappings of a memory map, and the operations that
-- build it; the panic on overlapping regions is a value. MemMap.Iterator has the iterator that maps
-- ranges through it: `next` takes one round for each element that is left and two more, since each
-- round takes an element, and a run takes one call of `next` for each unit of the data and one more. The
-- binary search of the standard library is a parameter with its documented contract.
--
-- PageCache (memflow/src/mem/phys_mem/middleware/cache/page_cache.rs): the cache of physical pages,
-- over any validator. PageCache.Cache has its state and operations: the buffer of a slot moves out
-- when a page is taken, and back when it is put. PageCache.Read has the cached read, with the memory
-- below as a parameter. PageCache.Uses has what the middleware
-- (memflow/src/mem/phys_mem/middleware/cache/mod.rs) does with the cache for one page of a write.
--
-- Args (memflow/src/plugins/args.rs): the arguments of a plugin. Args.Text has the split of a string
-- at characters outside quotes, Args.Entries the list of entries and how it is printed, Args.Parse
-- how it is read, Args.Validator the check against descriptors. The order in which a hash map gives
-- its entries is a parameter.
--
-- Not modelled: the plugin loader, the connectors and the foreign function interface, which load
-- libraries and read files; the derive macros; memory views, the rest of the middleware around the caches, and
-- the operating system layer.
pub mod Args
pub mod Cache
pub mod Error
pub mod Iter
pub mod MemMap
pub mod Mmu
pub mod PageCache
pub mod Prelude
pub mod Types
