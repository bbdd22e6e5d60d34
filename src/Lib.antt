-- ===== src/Lib.antt =====
-- A model of the program parts of GANOS, a small operating system with its tools, that compute
-- something: the console of the kernel, the second stage of the old boot loader, the shell, lines
-- in the C library, and some programs and disk tools. The parts do not call each other, except for
-- the files of the shell; what they share is in Base and Stdio.
--
-- Base has the shared names: tests, lists over the native numbers, byte-addressed memory `Mem`
-- with `store`, casts `u8` to `u64`, loops, decimal numerals, C strings, and `Run`, the outcome of
-- C code: `done`, `undefined` for what C leaves undefined (an access out of bounds, a null
-- dereference, a signed overflow), and `out_of_fuel`. C arithmetic of a width has its wrap-around
-- written out. A loop without a structural bound takes fuel; the theorems give an amount that is
-- enough (the number of digits of a numeral, the size of the screen, the length of a format) or
-- show that none is.
--
-- Console is sys/kern/src/x86/early_console.c over the memory behind `fb_ptr`: `Screen` has
-- `fb_ptr`, `row` and `col`; print_char, print_str, print_u64, print_i64, clear and console_init
-- are functions of the same names (the macro PRINT_DEC_NUM is written out for both types).
-- Console/Scroll, Text, Number and Overrun have the theorems.
--
-- Boot2 is boot/i386_fat.old/boot2.c and video.h: `Display` and `State` are the screen structure
-- and the memory; clear_screen and init_screen, the character functions putchar and printc, the
-- number functions printul, printl and printx (Boot2/Number, Hex), printf with its state machine
-- (Boot2/Printf: `Cursor`, `step` for one character of the format, `convert` for one conversion),
-- the search of the SMBIOS anchor in the 4096 paragraphs from 0xF0000 on (Boot2/Smbios), and
-- entry32 with the sums of the memory map (Boot2/Memory; Boot2/Memory/Report follows it from the
-- first screen to the last line). Boot2/Cpuid shows the brand string, with the instruction as a
-- parameter, and Boot2/Printf/Strings has the conversion %s that it uses.
--
-- Shell is bin/sh/src. Shell/Reader is the loop of main in main.c: its buffer, its quoting and the
-- lines handed to process, which are recorded as events with the prompts. Shell/Split is the
-- splitting loop of process on the memory of the line, Shell/Process the whole of it: Argv has the
-- argument vector as a function of the line, Spaced the lines of plain words. It dispatches to
-- built-in commands and to fork. Shell/Session puts these together: main calls process on its own
-- buffer, which is cut into words in place (Session/Line follows a line to that call), and
-- Session/Interpreter is what the whole of it promises. Shell/Builtins is builtins.c, Shell/Lookup
-- lookup.c, Shell/World the directory, the environment and the output that they change. getopt,
-- chdir with the text of strerror, fork, the success of malloc and realloc, and the rest of the C
-- library are parameters. The `int` that counts the bytes of a line bounds it by 2^31.
--
-- Getdelim is lib/libc/stdio/getline.c on the list of bytes that the stream has still to return;
-- malloc and realloc are a parameter that says which requests succeed.
--
-- Stdio is what these programs rely on of fgets: IsFgets is what its documentation promises, Text
-- and Progress what follows for a buffer and for a stream, Bytewise an fgets that keeps it. Lex,
-- Ed and Install take any such fgets.
--
-- Lex is usr/bin/lex/main.c: the globals as `State`, the options, the files one after the other
-- and the sections of a file, on the lines that getline reads. Lex/Getline is its own getline for
-- old systems, which puts a line together from the pieces that fgets reads; its fuel bounds the
-- calls of fgets, of which each but the last reads a byte at least. Lex/Stream is the loop of
-- parse over this getline, on the bytes of a stream, with fuel for the calls of getline, of which
-- each but the last reads a byte too; Lex/Stream/Lines takes the loop to the lines, Main the whole
-- program, and Sections follows a file of three sections from its bytes to the output. Lex/Strip
-- has the strip_ws functions, which nothing calls, on a block of memory.
--
-- Gpt is tools.bak/configurator/configure.c: the packed structures and their bytes (Gpt/Encode),
-- and the writes to the device in their order. Gpt/Layout says where they go, Gpt/Image what they
-- leave on the device, and Gpt/Header and Table what is read back of it.
--
-- Fat is tools.bak/fat_reader/fat_reader.c: the fields of the boot sector at their offsets, the
-- place of the root directory and its listing; Fat/Listing/Entries and Volume read what the
-- program shows off the bytes of the volume.
--
-- Gdt is tools.bak/gdt_creator/gdt_creator.c, with the fields that the processor reads in
-- Gdt/Fields; Base/Bits has the laws of `&` and `|` on fields that it needs.
--
-- Cat is bin/cat/src/main.c (Cat/Operands has its loop, Cat/Main the whole) and
-- bin/echo/src/main.c. Uname is usr/bin/uname/src/main.c.
--
-- Amake is usr/bin/amake/main.c: the list of makefile names as structures with `next` pointers in
-- a heap, where a pointer may also be unset; malloc is a parameter that gives the address for each
-- call or fails. Chain describes the heap of a list; its children follow configure, the walk of
-- main, and the exit with cleanup. Both walks take fuel, one more than the options are enough.
--
-- Ed is bin/ed/src/main.c, with fuel for the calls of fgets, one more than the bytes of the input.
-- Install is tools/alix-install/main.c; format, which no file defines, is only recorded. Pwd is
-- usr/bin/pwd/src/main.c, Du is usr/bin/du/src/main.c and Mkimg is tools/mkimg/main.c. Minikern is
-- boot/x86/bootld/minikern/entry.c.
--
-- Make is usr/bin/make/src: the growing array of dynarray.h with its length and its pointer, and
-- the options, the makefiles and the exit of main.c.
--
-- Not modelled: the assembly and link scripts of the boot code; the EFI and Multiboot headers and
-- the unfinished kernel entry; the drivers, which are stubs; the programs that make one system
-- call or print one constant; headers of declarations; the build files.
pub mod Base
pub mod Console
pub mod Boot2
pub mod Shell
pub mod Getdelim
pub mod Stdio
pub mod Lex
pub mod Gpt
pub mod Fat
pub mod Cat
pub mod Uname
pub mod Make
pub mod Amake
pub mod Ed
pub mod Install
pub mod Pwd
pub mod Gdt
pub mod Du
pub mod Mkimg
pub mod Minikern
