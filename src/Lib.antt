-- ===== src/Lib.antt =====
-- CLIgen, a library for command lines, modelled part by part.
--
-- - Memory: the C memory and string functions that the code calls. A block is the list of its
--   bytes, and a `Machine` says which requests the allocator grants and what fresh bytes hold; a
--   write or a read outside of a block is a fault. Prelude/Effects has the outcome of a
--   function: it returns, faults, or never returns. `Returns c P` says that it returns with a
--   value that satisfies `P`, so that each theorem with it is one of total correctness.
-- - Buf: cligen_buf.c, the growing string. The functions lack their prefix `cbuf_`, and
--   `cbuf_realloc` is `reserve`. The loop that grows the buffer runs on fuel, one round for each
--   byte needed: each round adds to a length that is not 0. Buf/Grow and Buf/Valid are about it,
--   Buf/Append about each append, Buf/Failure about what goes wrong, Buf/Text is the abstract
--   string, and Buf/Calls and Buf/Refine compare the two.
-- - History: cligen_history.c, the ring of input lines, with `cligen_buf_increase` of
--   cligen_handle.c. The functions lack their prefixes `hist_` and `cligen_hist_`. History/Log
--   is the abstract log. `cligen_hist_init` reads the old slots, as many as the old
--   size says, and faults where they are not there. The loops that save a file run on fuel, one round for each slot of the
--   ring, since they stop at the newest slot at the latest. History/File reads a file through
--   Buf.
-- - Escape: of cligen_expand.c the functions `cligen_escape_*`, which put a string in quotes,
--   and of cligen_cv.c `string_remove_backslash`. Escape/Text is the escaped text, Escape/Fit is
--   about the block that it is written to, Escape/Overrun about a block that is too small.
-- - Token: of cligen_cvec.c `next_token` and `cligen_str2cvv`, which split a command string. The
--   loop runs on fuel: each round but the last takes a byte, so a few rounds more than the
--   string has bytes are enough (Token/Step, Token/Total). Token/Words and Token/Quoted are
--   about the tokens.
-- - Lines: of cligen_cvec.c `cligen_txt2cvv`, which splits a text into lines.
-- - Cv: of cligen_cv.c the values that are parsed and printed: Cv/Uuid, Cv/Mac, Cv/Url,
--   Cv/Number (integers) and Cv/Decimal, with the functions named as in the source. A parser
--   that fails forgets what it has stored. sscanf(3), strtoll(3) and strtoull(3) are modelled
--   for the strings and bases that reach them; a number is printed on fuel, one round for each
--   digit. Cv/Compare has the integer fields of `struct cg_var`, which share eight bytes, and
--   `cv_cmp_ints`.
-- - Order and Strcmp: what a comparison must satisfy, and strcmp(3), which does; strverscmp(3)
--   is a parameter of `Settings`, the fields of the handle that `str_cmp` reads.
-- - Object: of cligen_object.c the objects of a parse tree without their trees: flags,
--   comparison (`co_eq`) and preference (`co_pref`).
-- - Slots: of cligen_parsetree.c the vector of slots `pt_vec`, each null or an object, and of
--   cligen_object.c the bisections `co_search1` and `co_insert_pos` and the insertion
--   `co_insert1` over them, for any comparison. They run on fuel, the length and two rounds
--   more, since each round halves the interval. Slots/Sorted has what a sorted vector is,
--   Slots/Search, Slots/Insert and Slots/Ordered what they do to one.
-- - Tree: of cligen_parsetree.c and cligen_object.c the trees, with objects, trees and vectors
--   as three types in one block: copying, sorting, merging, `co_insert1` and `co_find_one`.
--   Memory is granted there. qsort(3) is sorting by insertion. Tree/Paths is the abstract view
--   of a tree, the set of its paths, that is of command lines.
-- - Edit: of cligen_getline.c the keys that edit the line, each with the function that
--   `gl_getline` calls for it, on the buffer of the handle (History), the cursor and the kill
--   buffer. Edit/Words has the keys of words and `gl_yank`, Edit/Press the keys. Edit/Text is the
--   abstract line, Edit/Block the bytes of the buffer; Edit/Keys, Edit/Cuts, Edit/Stops,
--   Edit/KillWord, Edit/Writes and Edit/Pastes are about the keys, Edit/Grow and Edit/Yank about
--   a buffer that is too small, Edit/Refine about sequences of keys. A backslash sets the flag
--   `escape` and is not typed, as `gl_getline` has it; a search, the hooks and further exit
--   characters are left out. Of `gl_fixup` only what it
--   does to the cursor and the length is modelled, not what it draws.
-- - Trim: of cligen_read.c `cli_trim`, which trims a command line in place. Trim/Text is the line
--   that it is meant to return, Trim/Loop and Trim/Strip are about its loops, and Trim/Command is
--   about the call of `cliread_parse` that trims and splits a line (Token). The loop at the
--   end of the line runs on fuel, one round for each byte of the block, since each round makes
--   the line shorter.
--
-- The ints that count in the loops of History, Escape, Token and Lines fault in the model where they
-- would pass INT_MAX, so that the theorems about these loops say how long their input may be.
--
-- free(3) has no effect in the model, and what the code prints to a terminal is left out. The
-- parser of syntax specifications, matching, and the terminal itself are not modelled, nor are
-- times, IP addresses, the search in the history and the heads of trees.
pub mod Buf
pub mod Cv
pub mod Edit
pub mod Escape
pub mod History
pub mod Lines
pub mod Memory
pub mod Object
pub mod Order
pub mod Prelude
pub mod Slots
pub mod Strcmp
pub mod Token
pub mod Tree
pub mod Trim
