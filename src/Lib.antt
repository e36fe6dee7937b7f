-- ===== src/Lib.antt =====
-- RedPandaOS, a hobby operating system for i686: a model of its kernel in C, and what is proved.
--
-- The kernel is a single program with static state. The physical memory manager hands out frames,
-- the heap maps them and hands out blocks, the drivers push input events into a queue that the main
-- loop drains, and the file system keeps files on an ATA disk. Each C function is a function on
-- explicit state; a `uint32_t` is a natural number whose wrap-around is written out.
--
-- Strings: kernel/string.c. `Memory` is a function from addresses to bytes; memset, memcpy and
--   memmove run over it by their aligned word paths and byte paths. The readers (strlen, strcmp,
--   strncmp, memcmp) run on lists of bytes, where the end of a list stands for a NUL.
-- Pmm: kernel/pmm.c and kernel/memmap.h. `Pmm` holds the bitmap (2^15 words of 32 bits), the two
--   counters and the search hint. The scan of a word has 32 rounds and the scan of the bitmap 2^15,
--   the code's own bounds.
-- Heap: kernel/heap.c. The linked list of blocks is a list in order of address. A pointer is an
--   address. `FrameSource` stands for pmm.c and paging.c.
-- Ring, Fifo: the ring that kernel/input.c and others keep, and the queue it refines.
-- Input: kernel/input.c, with the interrupts that push events as explicit steps.
-- Timer: kernel/timer.c. The interrupts are counted; Timer/Start programs the chip over the ports.
-- Rtc: kernel/rtc.c. The registers are read through the interface `Cmos`; the wait has the code's own
--   100000 rounds.
-- Keyboard: kernel/keyboard.c. The scancode is an argument of the interrupt handler; the characters
--   for the shell and the events are two rings. A read that sleeps is given what arrives meanwhile.
-- Fs: kernel/fs.c. Fs has the data and the chains, Fs/Sectors the bytes of the cached tables and
--   their write-through, Fs/Ops the public operations, Fs/Mount formatting and mounting. The disk and
--   the heap are behind the interface `Disk`. `free_chain` has 2^16 rounds of fuel, one for each
--   value of a FAT entry; the loops of `fs_read` and `fs_write` take at least one byte in each round,
--   so the number of bytes is fuel enough.
-- Fb: kernel/fb.c. Fb has the pixels, rectangles and lines, Fb/Shapes the blended and the round ones
--   with text, Fb/Flip what brings the backbuffer and the mouse cursor to the screen. A buffer is a
--   function from offsets to bytes. An `int` is an integer: the sums of rectangles and of lines wrap at 32
--   bits as the machine's do (Prelude/Wrap), and elsewhere none overflows. The line's loop has one round
--   more than its points are apart in both directions together, which is enough for points that are
--   less than 2^28 away from 0, and the square root one more than its argument.
-- Mouse: kernel/mouse.c. The bytes of the port are arguments of the interrupt handler, which moves
--   the cursor of Fb and pushes into the queue of Input. Mouse/Start has `mouse_init`
--   over the ports; what is left in the controller is drained with fuel for the bytes in it.
-- Ata: kernel/ata.c. The ports are behind the interface `Ports`; the polling loops have the code's own
--   1000000 rounds, and `ata_disk` is the driver as the disk that Fs runs on.
-- Paging: kernel/paging.c, with the frames of Pmm. Memory is a function from the addresses of words to
--   words. The loop over a range has a round for each page of it. Paging/Inv has what the processor
--   reads off the tables.
-- Shell: kernel/shell.c. The state is the file system with that of the machine, whose other parts are
--   behind the interface `Machine`. Shell/Run has the line editor, the table of commands and the loop,
--   Shell/Files the commands on files, Shell/Gfx and Shell/Paint the drawing. A round is given fuel for
--   the characters of its line and for the events of `paint`: one more than there are is enough.
-- Console: kernel/console.c, on the screen of Fb; Console/Grid follows the cursor.
-- Kprintf: kernel/kprintf.c. What is put on the console is a list, and the arguments are a list.
--   The loop over the digits has 32 rounds, as many as a 32-bit value has bits.
-- Editor: the text editor of kernel/gui.c. The heap, the clock, the files and the desktop are behind
--   the interface `World`.
-- Windows: the windows of kernel/gui.c. The order is a list from the bottom to the top, and the user's
--   actions are explicit steps; Windows/Press has the presses, the taskbar and the drags,
--   and Windows/Top says where the focus is.
-- Icons: the desktop's icons of kernel/gui.c. The directory's files and the loaded layout are
--   arguments of `refresh_icons`; Icons/Layout has the layout's file, the trash and the selection, and
--   Icons/Clear says in coordinates where a new icon goes.
-- Draw: what kernel/gui.c draws, on the screen of Fb: Draw the wallpaper, Draw/Frame a window's frame,
--   Draw/Apps the built-in windows, Draw/Desk the icons, Draw/Menu the start menu, Draw/Taskbar the
--   taskbar and the whole picture. The numbers and the time that it shows are arguments.
-- Interrupts: kernel/isr.c, kernel/idt.c and kernel/pic.c. The ports, the console and the handlers'
--   own work are behind the interface `Board`; the handlers' table is a list of the drivers' names.
-- Cursor: kernel/cursor.c, the sprite as a function from positions to ARGB words.
--
-- Not modelled: boot/boot.asm, kernel/entry.asm and kernel/isr.asm (assembly); kernel/font.h (a
-- table); kernel/kmain.c and kernel/memmap.c but for the names of its types, which only connect the
-- parts; and, so far, the rest of kernel/gui.c: the trash's window, the opening of files, and the rest
-- of the dispatch of events.
pub mod Prelude
pub mod Strings
pub mod Pmm
pub mod Heap
pub mod Fifo
pub mod Ring
pub mod Input
pub mod Timer
pub mod Rtc
pub mod Keyboard
pub mod Fs
pub mod Fb
pub mod Mouse
pub mod Console
pub mod Kprintf
pub mod Editor
pub mod Windows
pub mod Icons
pub mod Ata
pub mod Paging
pub mod Shell
pub mod Interrupts
pub mod Cursor
pub mod Draw
