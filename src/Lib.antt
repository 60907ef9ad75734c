-- ===== src/Lib.antt =====
-- ldal, a device abstraction layer for Linux: devices of many classes behind one set of calls.
--
-- The program. A program fills a table of devices and calls `ldal_device_create`, which allocates a
-- structure per device and registers it (src/ldal.c). Devices and classes stand in two circular
-- lists (inc/list.h). A device is found by its name, started, read, written, controlled and stopped
-- through the generic calls of src/ldal.c, which count its users, take its mutex and call the
-- operations of its class through a table of function pointers (src/class). The classes hand the
-- calls on to sockets, serial ports, files, analog inputs, a modem, a backlight, a real time clock
-- or a ring buffer. Commands to a modem go through src/at.c. src/netdev.c sets the attributes of
-- network interfaces, and src/server.c lets a monitor call procedures over a socket. tools holds two
-- echo servers to try the socket classes with, and a client of the monitor server.
--
-- The files. Each component is a file, with its theorems in the folder of the same name.
--   Base         the shared names; Base/Int the signed results, Base/Codes the error codes of
--                inc/ldal.h, Base/Lists lists measured by native numbers, Base/Text texts.
--   Kernel       the system calls that the code makes. A handler is a function of an environment,
--                which answers each call and may look at every call before it, and of the history
--                of calls, which it extends.
--   Device       inc/ldal.h and the generic calls of src/ldal.c: `startup_device`, `stop_device`,
--                `read_device`, `write_device`, `control_device`, `check_status`,
--                `bind_local_addr` and `connect_server_addr`. Device/Sharing is about the reference
--                count, Device/Mutex about the mutex.
--   ListHead     inc/list.h: a store of links over addresses. ListHead/Linked and ListHead/Ring relate it to lists,
--                ListHead/Walk is about `list_for_each_entry`.
--   Registry     the two lists and the searches of src/ldal.c; Registry/Enroll registration,
--                unregistration and creation. The names are those of the code, less `ldal_`.
--                Registry/Invariant is about registration in every case, Registry/Enrolled and
--                Registry/Classes about its cases, Registry/Removed about unregistration,
--                Registry/Created, Registry/Creation and Registry/Table about creation from a
--                table. Registry/Startup
--                is about the constructors of the classes, which run before `main`, and
--                Registry/Ready about creation after them. Registry/Show holds the
--                list of devices that is printed at the end.
--   Socket       what the two socket classes share: addresses in file names, options.
--   TcpSocket    src/class/ldal_tcp.c: the states of a link and the options of its socket.
--   Tcp, Udp     src/class/ldal_tcp.c and src/class/ldal_udp.c, by the names of the code. Tcp/Session
--                is about a link over any sequence of operations.
--   FileClasses  src/class/ldal_gpio.c, ldal_digital.c, ldal_misc.c, ldal_file.c and ldal_memory.c.
--   Rtc          src/class/ldal_rtc.c.
--   Serial       src/class/ldal_serial.c: Serial/Options the line options, Serial/Read the read loop.
--   At           src/at.c and inc/at.h: responses. At/Lines is about the lines of a response.
--   AtClient     src/at.c: the execution of a command, with its lock and its deadline.
--   Me           src/class/ldal_me.c. Me/Session is about commands and messages.
--   Server       src/server.c: the procedures. Server/Devices is about the list of devices,
--                Server/Procedures about the others. Server/Serve is about their registration and
--                the list of their names.
--   Analog       src/class/ldal_analog.c: reading; Analog/Calib calibration and the commands.
--                Analog/Points and Analog/Stored are about a calibration, Analog/Mode about an input
--                over any sequence of operations, Analog/Locked about the generic calls and
--                the mutex, Analog/Crc about the checksum.
--                Analog/Shared is about the users of an input.
--   Backlight    src/class/ldal_backlight.c.
--   Netdev       src/netdev.c: Netdev/Attributes its functions, Netdev/Descriptors what they leave
--                open, Netdev/Status the status of an interface.
--   Tools        tools: a program that may leave by `exit`, and Tools/Ensures conditions before and
--                after one. Tools/TcpEcho is tools/tcp_echo_server.c: TcpEcho/Echoed and
--                TcpEcho/Rounds are about what it sends back, TcpEcho/Descriptors and TcpEcho/Pool
--                about the descriptors, TcpEcho/Willing and TcpEcho/Shutdown about its end.
--                Tools/UdpEcho is tools/udp_echo_server.c, Tools/ListDevice tools/list_device.c.
-- Files called Tests apply the theorems to concrete states.
--
-- Conventions. An `int` is a ℤ of Base/Int; what the code keeps in 16 or 32 bits is reduced with `%`.
-- A buffer is the list of its bytes. A state is returned beside the result. A call through a NULL
-- function pointer is `crash` in Device, and an access through NULL or outside an array is `crash`
-- in Registry and `none` in ListHead; an access to freed memory is `none` in FileClasses/Memory.
-- In Tools an access outside of an array is `crashed`.
--
-- Bounds. The searches of the lists and the list of devices run on fuel, the number of rounds; any
-- fuel above the length of a well formed list is enough, and the theorems on searches say so. The
-- loops of `serial_read`, `get_ai_average` and `restore_adc_value` have the rounds of the code. The
-- loops of the echo servers have no end of their own: they run on fuel, a round each, what is
-- said of them holds for any fuel, and Tools/TcpEcho/Shutdown gives the fuel that is enough once the
-- keyboard is ready. The other loops are recursion on a list, on a count of lines or on a decimal's digits.
--
-- Parameters. The answers of the system (any environment), where `calloc` places a structure, what
-- the `init` of a class makes of a device in the registry, the address that `recvfrom` stores, the
-- request numbers of `_IOW` and of network interfaces, the memory layout of the structures of the
-- clock, a terminal, an analog input and a network interface, the speeds of a terminal, floating
-- point arithmetic, `sscanf`, `inet_ntoa` and `inet_aton`, what stands in memory behind a buffer, and
-- the ring buffer of src/ringbuffer.c, a copy of the one of RT-Thread, with the laws of a bounded
-- queue; the order in which the constructors of the classes run; the table of procedures of
-- jsonrpc-c, in which a registered procedure stands last; `getopt_long`, `atol` and `FD_ISSET`.
--
-- Not modelled. The copies of cJSON, jsonrpc-c and libev, and the server loop that they run; the
-- parser thread of src/at.c, whose body is compiled out; the output of messages, but for the
-- list of devices and the reply that tools/list_device.c prints; the read-write locks of the lists of
-- src/ldal.c, and races between threads; texts that are too long for the arrays that `strcpy` and
-- `sprintf` fill, where no theorem speaks of them, and what an address that is too long for the file
-- name of a device writes behind it; and undefined behaviour of arithmetic.
pub mod Base
pub mod Kernel
pub mod Device
pub mod ListHead
pub mod Registry
pub mod Socket
pub mod TcpSocket
pub mod Tcp
pub mod Udp
pub mod FileClasses
pub mod Rtc
pub mod Serial
pub mod At
pub mod AtClient
pub mod Me
pub mod Server
pub mod Analog
pub mod Backlight
pub mod Netdev
pub mod Tools
