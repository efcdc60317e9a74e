-- ===== src/Lib.antt =====
-- A verification library for the parallel computing library of the Raspberry Pi boards: message
-- passing between up to four boards (libpi/src/fmpi.c) over software UARTs (libpi/src/sw-uart.c) on
-- GPIO pins (libpi/src/gpio.c, libpi/src/gpio-int.c), with the bit fields, the circular queue,
-- the CRC-32 and the printk of libpi/libc, and for the boot protocol of src/bootloader that loads a program.
--
-- How the parts interact. A board's program calls FMPI_Init, which sets up one software UART per
-- peer by sw_uart_init, which sets the pins' functions by gpio_set_function. The collectives
-- FMPI_Bcast, FMPI_Scatter and FMPI_Gather first synchronise the ranks by sync_root_last and then
-- move bytes by send and recv, one sw_uart_put8 or sw_uart_get8 per byte. These write and sample
-- the level of a pin at times that they count in cycles.
--
-- Base: the shared helpers. Base.Tests has the Boolean tests, Base.Lists the C arrays as lists,
--   Base.Words the wrap-around of uint8_t and uint32_t, Base.Results the do blocks over Option, and
--   Base.Bits the digits of a number and how the machine's operations act on them.
-- BitSupport: libpi/libc/bit-support.h (libunix/bit-support.h is a copy). One function of the same
--   name each; a failed assert is `none`.
-- Gpio: libpi/src/gpio.c and libpi/src/gpio-int.c. The device registers are a `Bus`: what each
--   address reads as, with the list of writes so far.
-- SwUart: libpi/src/sw-uart.c, the macros of libpi/include/sw-uart.h, and wait_until_usec of
--   libpi/include/cycle-util.h. A line is a function from cycles to levels. How late a write or
--   a sample comes is a parameter, a function of its number. The looks of the polling loop are a
--   list, with the time that the timer shows at each.
-- Fmpi: libpi/src/fmpi.c. Fmpi.Link has what the UARTs yield and what a rank does, Fmpi.Transfer
--   send, recv and the signals, Fmpi.Sync sync_root_last, Fmpi.Collective the four collectives, and
--   Fmpi.Setup FMPI_Init. Fmpi.Async has the calls of libpi/src/fmpi-async.c and the handler of
--   libpi/src/test-interrupts.c that serves them, in a group of two ranks. Fmpi.Delivery and Fmpi.RoundTrip put the root and a peer together.
-- Circular: libpi/libc/circular.h. The macro CQ_N is an argument, and the hypotheses on it are that
--   it divides 2 ^ 32, which cq_nelem needs. Circular.Window reads the queue as a list.
-- Crc: libpi/libc/crc.c, the same code as in src/bootloader/2-pi-side/boot-crc32.h. Crc.Table is the
--   table, Crc.Division the division by the polynomial, Crc.Detection what a checksum tells apart.
-- Printk: libpi/libc/printk.c. Printk.Numbers is about emit_val, Printk.Format about the format, and
--   Printk.Buffer about libpi/libc/sprintk.c.
-- HwUart: libpi/src/uart.c on the bus; the reads of its line status register are a list.
-- Matmul: src/tests/1-matmul/matmul-hard.c, its matrices as functions of two indices, of any size n
--   where the source has 256. Matmul.Bytes lays them out in memory, Matmul.Ranks is notmain, with rank 0
--   in Root and Verified and the other ranks in Peer. Signed sums wrap here; in C their overflow is undefined.
-- TypedQueue: libpi/libc/circular-T.h, over elements of any type, as a list in TypedQueue.Sequence and
--   with its overwriting push in TypedQueue.Newest. N divides 2 ^ 32, as for Circular.
-- Mergesort: src/tests/mergesort.c, the sort of a chunk and the root's merges of the sorted chunks, over
--   any items with a comparison. What the collectives leave is a hypothesis, in the form of Fmpi.RoundTrip.
-- Render: src/tests/2-render/render.c. Render.Random makes the circles, Render.Strips the images,
--   Render.Cycles the time, Render.Output the bytes for the laptop.
-- TimerInt: libpi/src/timer-int.c, its set-up and the handler that counts the wraps of the cycle counter.
-- PinInt: src/gpio_int, the interrupts by the edges of a pin and by the timer, on the bus of Gpio. PinInt.Counts
--   is one interrupt, PinInt.Sequences any number of them, PinInt.Start the start-up, with what the board's
--   wiring does to the levels when a register is written as an argument.
-- Timeout: libpi/staff-src/timer.c and libpi/include/timeout.h.
-- Libc: the routines on memory and strings of libpi/libc. Startup: libpi/staff-src/cstart.c and
--   libpi/include/redzone.h, which use them.
-- Host: the laptop, with the reads from the first Pi in libunix/pi-echo.c in Host.Echo and Host.Done,
--   the choice of a device in libunix/find-ttyusb.c and libunix/suffix.c in Host.Ttyusb, and the boot of
--   one device in src/bootloader/1-unix-side/my-install.c in Host.Install. The rank that it writes into a
--   program is that of FMPI_Init (Host.Install.Ranks, with Boot), and the picture that is collected is
--   that of Render (Host.Picture).
-- LinkedQueue: libpi/libc/Q.h over a heap of `next` fields.
-- Boot: the Pi's end, src/bootloader/2-pi-side/get-code.h, in Boot.Pi, and the host's end,
--   src/bootloader/1-unix-side/put-code.c, in Boot.Unix, with the opcodes of boot-defs.h. Each end
--   is a run over the bytes that it will read; Boot.Send.Session puts the two together.
--
-- Bounds and fuel. Arithmetic of `unsigned` and of uint32_t wraps around at 2 ^ 32, written out
-- where a result can leave the range. The times of sw_uart_put8 are products that wrap, and the
-- round trip asks that ten bits fit in 2 ^ 32 cycles. Loops with a counter are recursions on the
-- rounds left. The polling loops recurse on what the UART still yields: one round takes one outcome,
-- so the outcomes bound the rounds, and a loop that finds none has not ended (`starved`, or `none`
-- in SwUart). In wait_until_usec the time-out and two looks more are enough. The host's loops
-- are bounded by the bytes left to read, since each round reads four or more. merge_sort has the length of
-- its range as fuel, which is enough since each half is shorter, and yields `none` where it runs out.
-- delay_us has a reading of the timer for each round.
--
-- Not modelled. The copies by which libunix/find-ttyusb.c puts "/dev/" before a name overlap and leave
-- their buffer, so the name that it returns, find_ttyusb_i and the loop of my-install.c over the devices
-- are left out. So are the small test programs. Start-up code and the interrupt vectors themselves are
-- assembly. The rest of libunix is input and output around
-- system calls. Negative ranks and roots, and a count whose product with the element size leaves
-- `int`, are outside the model. Memory barriers only order accesses, and the model keeps the order of
-- the source.
pub mod Base
pub mod BitSupport
pub mod Gpio
pub mod SwUart
pub mod Fmpi
pub mod Circular
pub mod Crc
pub mod Boot
pub mod PinInt
pub mod Printk
pub mod HwUart
pub mod LinkedQueue
pub mod Matmul
pub mod Libc
pub mod Startup
pub mod Render
pub mod TimerInt
pub mod TypedQueue
pub mod Timeout
pub mod Mergesort
pub mod Host
