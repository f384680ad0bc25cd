-- ===== src/Lib.antt =====
-- A model of procenv, a program that prints its environment as text, breadcrumbs, JSON or XML, and
-- of the libraries it is built on.
--
-- The program (src/procenv.c) collects facts from the operating system and hands them to the output
-- layer (src/output.c) by calls that open and close sections, containers and objects and that add
-- entries. The output layer appends to one document, a wide string (src/pstring.c), with the append
-- functions of src/string-util.c. What is written between two calls is decided by a state machine on
-- the last and the current element, with a table for each format. Breadcrumbs, as other lists of the
-- program, are kept in the circular doubly linked lists of src/pr_list.c.
--
--   Prelude     numbers, lists and texts; what a run comes to (Outcome), and commands that carry a
--               state (Cmd)
--   PrList      src/pr_list.c, one function for each of its functions, over a heap of nodes. Ring,
--               Insert, Remove, Strings, Sorted and Visit hold the theorems.
--   Memory      buffers as lists of cells, a cell that nothing wrote as none; realloc, wcsncat and
--               the like
--   Pstring     src/pstring.c; Compress is pstring_compress, which removes empty lines of the
--               finished document.
--   StringUtil  src/string-util.c. Doc and Fresh relate the append functions to concatenation;
--               Fields is split_fields.
--   Output      src/output.c: State is its globals and the document. Indent, Crumbs, Encode,
--               TextTable, JsonTable, XmlTable, Elements, Master and Settings follow the parts of the file.
--               Encode/Translate, Codes and Read say what an encoding is and how it is read.
--   Document    whole documents as trees, and the calls that write them. Json, Lines (text and XML)
--               and Crumb are the text of a document described with no state, and the theorems that
--               the calls write it.
--   Printf      the conversions of the format strings that the program uses, from the C standard
--   Util        src/util.c, but for the functions that only ask the system
--   Program     src/procenv.c. Environment is check_envvars. Show and its children are the display
--               functions: Meta, Tables, Machine, Process, Signals, Stat, Network and Misc. Main is
--               what the letter of an option displays, and dump; Options is main, up to the
--               finished document. Tokens is strsep. Emits relates a function to
--               the tree of the calls it makes, Fails is for what never returns, and Runs below a
--               module holds the trees of its functions.
--
-- A platform (src/platform) is the record Ops of its functions, as in src/platform.h, each of which
-- may be missing. What the operating system and the C library answer is an argument: the fields of
-- World, and of the records in it. Queries happen once, so that an answer does not change during a
-- run; the conversions of the locale stay those of its start, although show_locale calls setlocale.
-- qsort and strcoll are arguments, too.
--
-- Pointers are addresses, and a read or write through one that holds no node is Halt.undefined, as
-- is every step the C standard gives no meaning. `assert` and `die` are other ways to halt.
-- Allocation is taken to succeed; the address that calloc returns is an argument.
-- Numbers of type size_t are natural numbers, since they count cells of memory that exists; the
-- one sum of a length that a caller chooses, in pr_list_appendn_str, wraps around. `indent` is
-- checked against the bounds of int.
--
-- Loops that the code bounds by data run on fuel, and the theorems say how much is enough: one round
-- for each node of a ring and one more; in wappendva, whose buffer grows by one character a round,
-- and in split_fields and pstring_compress one for each character of the text and one or two more,
-- as in the loops of check_envvars over $PROCENV_EXEC and of get_path over $PATH. show_all_groups
-- asks again until the groups of the process fit; its rounds are a field of World.
--
-- The conversion of bytes to wide characters (mbsrtowcs) and iswprint are parameters. A tree of
-- Document holds what a format expands to, which Printf computes for the formats of the program.
-- The theorems on whole documents are on one display option, as master_header is called for each.
-- No format of the program prints a nul character.
-- Of init, only what it does to the output layer is modelled: that its queries succeed is assumed.
-- Not modelled: what the platforms ask the operating system, and the filling of the records of
-- src/procenv.c from it; show_libc, show_compiler, show_ranges, show_tty_attrs and usage, which print
-- constants of the build, and the entries of sysconf_map and locale_map, which the build chooses; and
-- the writing of the finished document to a file, a terminal or the system log.
pub mod Prelude
pub mod PrList
pub mod Printf
pub mod Memory
pub mod Pstring
pub mod StringUtil
pub mod Output
pub mod Document
pub mod Util
pub mod Program
