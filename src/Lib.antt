-- ===== src/Lib.antt =====
-- Verification of the storage core of BusTub, a database for teaching: the trie of the first
-- exercise, the extendible hash table that maps pages to frames, the LRU-K replacer that chooses
-- which frame a page leaves, the buffer pool manager over the two, the slotted pages of a table, the
-- header page, the heap of a table and its iterator, the pages of the B+ tree, the values of the
-- integer types, and some helpers on strings.
--
-- The parts, and where they are modelled:
--   src/include/primer/p0_trie.h: Trie.antt (the class `Trie`) and Trie/Node.antt (`TrieNode` and
--     `TrieNodeWithValue`). A key is its list of characters. A pointer that walks down the tree is
--     a recursive call, and what is written through it is put back under the parent on return.
--   src/container/hash/extendible_hash_table.cpp and src/include/container/hash/
--     extendible_hash_table.h: Hash.antt (the table) and Hash/Buckets.antt (the class `Bucket`). A
--     `shared_ptr<Bucket>` is an index into a list of all buckets, so entries of the directory share
--     them as in the code. The key's `operator==` and `std::hash` are an instance argument, with
--     the law that equality tests equality.
--   src/buffer/lru_k_replacer.cpp and src/include/buffer/lru_k_replacer.h: Replacer.antt. The two
--     linked lists are lists of frame ids, from tail to head; the frames are in the map `mp_`.
--   src/buffer/buffer_pool_manager_instance.cpp, src/include/buffer/buffer_pool_manager_instance.h and
--     src/include/storage/page/page.h: Pool.antt. The page table is the interface in Pool/Table.antt, an
--     instance argument with the laws of a map; the disk manager is a map from page ids to bytes. What
--     `NewPgImp` and `FetchPgImp` share is `take_frame` and `load`. Pool/Run.antt has the calls as data
--     and runs sequences of them; Pool/View.antt has the bytes of a page as a client sees them.
--     Pool/HashTable.antt fills the interface with the table of Hash.antt; equality and hash of
--     page ids are arguments there.
--   src/storage/page/header_page.cpp and src/include/storage/page/header_page.h: Header.antt. The entries
--     are a list; an assertion that fails, or a write past the end of the page, is `none`.
--   src/storage/page/table_page.cpp and src/include/storage/page/table_page.h: Table.antt. The header's
--     fields, the slots and the bytes of the tuples are fields of a record. Differences and sums of
--     `uint32_t` wrap. An assertion that fails is `none`.
--   src/storage/table/table_heap.cpp and src/storage/table/table_iterator.cpp: Heap.antt, over the pages
--     of Table.antt, and Heap/Iterator.antt. A map from page ids to pages stands for the buffer pool; whether NewPage finds a
--     frame is an argument. The transaction is a flag and a write set. `scan` is the loop of
--     a client from `Begin` to `End`. The walks along the pages run on fuel; one round for each page and
--     one more is enough.
--   src/storage/page/b_plus_tree_page.cpp, b_plus_tree_leaf_page.cpp and
--     b_plus_tree_internal_page.cpp, with `Split` of a leaf and the search for a child from
--     src/storage/index/b_plus_tree.cpp: Page.antt (what both kinds of page share), Page/Leaf.antt and
--     Page/Internal.antt. `array_` is a function from slots to pairs, since it goes on past its
--     declared length. The comparator is an instance argument, with the law that it is a total order.
--     Tree.antt has `Findleaf` and `GetValue`, and Tree/Insertion.antt has `Insert` with its splits, over a
--     map from page ids to pages that stands for the buffer pool.
--   src/type/value.cpp, integer_parent_type.cpp, tinyint_type.cpp, smallint_type.cpp,
--     integer_type.cpp and bigint_type.cpp, with the headers in src/include/type: Types/Value.antt (the
--     class `Value` for the integer types), Types/Arith.antt (`Add` to `Modulo`), Types/Compare.antt,
--     Types/Cast.antt and Types/Storage.antt. A value has its number as an integer and its NULL flag. The
--     operations dispatch on the type of the left operand; what the four classes have in different words
--     is in Types/Tinyint.antt, Smallint.antt, Integer.antt and Bigint.antt. What a signed operation gives
--     that overflows is undefined in C++ and an argument of the operations, of which no theorem asks
--     anything: where one depends on the result, its hypothesis is that it does not overflow. Numbers are stored lowest byte first.
--   src/common/util/string_util.cpp: Strings.antt, with `Split` at a character, `Join` of strings and
--     `Strip`. The loop of `Split` runs on the length of the string as fuel; each round takes a
--     character at least.
-- Common.antt and its children hold what the parts share: tests on numbers, vectors, association
-- lists for `std::unordered_map`, and low bits of numbers. The child modules of a part prove what
-- the list below says; the modules named Tests run the code on small inputs.
--
-- Each operation is one step: the latches are not modelled, but that a call which locks a latch its
-- own thread holds does not return (`deadlock`). Counters of type `size_t` wrap at 2 ^ 64. The loop
-- of `ExtendibleHashTable::Insert` runs on fuel, and where the low d bits of the hash tell all keys
-- apart, fuel of d + 1 is enough. `std::lower_bound` halves its range on as much fuel as the range is
-- long. The descent
-- of `Findleaf` and the recursion of `InsertIntoParent` run on fuel; fuel above the height of the tree
-- is enough for the descent. All other loops are structural. Depths and `1 << depth` are read
-- as unbounded numbers; the code has `int` there.
--
-- Page ids are natural numbers with `none` for `INVALID_PAGE_ID`; that they stay below 2 ^ 31 is
-- a hypothesis or follows from the number of calls. A fetch of `INVALID_PAGE_ID`, whose test the code
-- has commented out, is not a call of the model, so that this id is never in the page table. What
-- `ReadPage` of src/storage/disk/disk_manager.cpp reads is what was written for ids below 2 ^ 19;
-- above, its offset overflows an int, and the theorems on what is read leave those ids out. A pin
-- count is a number without bound where the code has an int; it overflows only after 2 ^ 31 - 1 pins
-- of one page. Under the B+ tree the header page is taken to have been allocated first, as page
-- `HEADER_PAGE_ID`, and is kept apart from the map of the other pages.
--
-- Not modelled: operands of type DECIMAL and VARCHAR, what runs between threads, memory that is freed, transactions and the log, the pins and
-- the frames that run out under the B+ tree, and the rest of the database above these parts.
pub mod Common
pub mod Hash
pub mod Header
pub mod Heap
pub mod Page
pub mod Pool
pub mod Replacer
pub mod Strings
pub mod Table
pub mod Tree
pub mod Trie
pub mod Types
