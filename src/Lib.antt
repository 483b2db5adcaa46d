-- ===== src/Lib.antt =====
-- The firewall of SC_CoSiM, simulated and as a driver sees it.
--
-- The program's core has two sides. example/Firewall_with_mem/firewall_with_mem.cpp is a SystemC
-- model of a 4-port packet firewall: a bus writes 32-bit packets to the input ports, which check
-- them against a rule, stamp the reads and hand them to two rows of two-way switches; an output
-- port carries a packet out on the memory behind it; the answers to reads go back, through the
-- response thread, to registers that the bus reads.
-- example/Demo_HARDWARE_firewall_ARM/kernel_mode.c, with init_modules.h and ioctl_fw.h, is the
-- Linux driver: it sets up rules, builds packets, polls for responses and reads the statistics.
-- They share the addresses, the order of the registers and the packet format only by convention.
-- The libraries connect the two without the hardware: a virtual driver does what kernel_mode.c
-- does, with each access sent as a packet, over shared memory or TCP, to async_sc_cosim_int.cpp,
-- which passes it through an asynchronous channel to SystemC and the firewall. On either driver
-- stands a user-mode library.
--
-- Which file models what:
--
--   Prelude         shared names; lists over native numbers, 32-bit words and their bits
--   Firewall/       firewall_with_mem.cpp and .h, fw_packet.h
--     Packet        the packet word and its fields, the ports
--     Rule          the rule check of interface_in_k
--     Input         interface_in_0 to interface_in_3
--     Switch        entry_sw_1 to entry_sw_4
--     Output        interface_out_0 to interface_out_3
--     Response      entry_response
--     Setup         setupfw_rule
--     Registers     b_transport, execute_write_thread, execute_read_thread
--     Transport     the reads of b_transport and transport_dbg
--     Direct        direct_mem_out_0 to direct_mem_out_3
--     Module        the module as a whole: its fifos, and the rounds of its threads
--   Driver/         kernel_mode.c, init_modules.h, ioctl_fw.h
--     Machine       the device behind ioread32 and iowrite32, and how a call ends
--     Map           the address map and the register numbers
--     Rules         setupFW, readFWRegs, checkFWRegs
--     Bram          accessBram
--     Packets       accessBramFW
--     Stats         the statistics of mfd_init, readStatsPerPort, readStatsPerAllPorts
--     Ioctl         my_unlocked_ioctl, my_open, my_close
--     Load          mfd_init, mfd_exit
--   System/         the two sides together
--     AddressMap    the driver's addresses against the firewall's decoding
--     RuleSetup     setupFW against setupfw_rule, cycle by cycle
--     Access        a read and a write from the driver's packet to the memory and back
--     Delivery      the rounds of a read through the module as a whole
--     Driven        the driver's call of a read on the module as a whole
--     Written       the same for a write
--     Storage       what is written through a port, and the memory behind it
--     Simulated     a process's call on the simulated firewall, through the co-simulation
--     Policy        a rule from the user-mode library to the check of an input port
--   Board/          main.cpp, receiver.cpp and mem_bus_if.h of example/Demo_SC_firewall
--     Memory        mem_bus_chn
--     Receiver      entry and directentry of the receiver
--     Side          an output port with the memory and the receiver behind it
--     Direct        a direct memory port with the same
--   Helper/         library/Helper
--     Queue         hsoc_queue.h
--     Vector        hsoc_vector.h, on a heap
--     Array         hsoc_array.h
--     Text          isWhitespace, trim, strim and trimstring of helper.cpp
--   Channel/        library/Async_channel
--     Packet        async_packet.h; pack, unpack, get_async_data_len and a constructor of async_packet.cpp
--     Async         async_channel.cpp
--   Cosim/          library/Async_sc_cosim_int/async_sc_cosim_int.cpp
--     Setup         the semaphores, when the thread starts
--     Tlm           the payload and the target behind the socket
--     Sysc          asysc_sysc_thread_process
--     Os            what the three copies of async_os_thread share
--     Round         a pass of the two threads, over POSIX semaphores, shared memory and TCP
--     Request       the payload that a request becomes
--     Answers       the device that the whole answers for, over a target that may refuse an access
--     Simulated     a virtual driver, the co-simulation and the target as one
--   Virtual/        example/Demo_SC_firewall/sc_kernel_mode_shm.h, sc_kernel_mode_posix.h and
--                   sc_kernel_mode_tcp.h, example/Demo_HARDWARE_firewall_ARM/sc_kernel_mode.h
--     Access        the accesses that a virtual driver rests on, an interface
--     Refines       one machine stands for another, and what accesses implement
--     Packet        simple_async_packet.h, the requests and the times
--     Semaphore     sc_iowrite32 and sc_ioread32 of three of the drivers
--     Calls         sc_setupFW, sc_readFWRegs, sc_accessBramFW, sc_accessBram, sc_readStatsPerPort
--     Shm Posix Arm the drivers on shared memory
--     Tcp           the driver over TCP, and the stream it reads
--   User/           example/Demo_HARDWARE_firewall_ARM/user_mode.h and
--                   example/Demo_SC_firewall/sc_user_mode.h
--     Kernel        the ioctl calls
--     Access        accessBram and accessBramFW
--     Rules         setupSFW, setupCFW, readSFW, readCFW
--     Ports         the groups of the ports
--     Stats         the statistics
--     Virtual       sc_user_mode.h
--     VirtualArm    sc_user_mode.h of example/Demo_HARDWARE_firewall_ARM
--   Tests/          the theorems at concrete inputs
--
-- Laws, Trace, Counts, Errors, Refine and Quotes below a module, Round/Tcp, and the modules below
-- Firewall/Module but Ends hold theorems.
--
-- A SystemC thread is an endless loop around wait(); one round of it is a function from the local
-- variables and what the round reads from fifos and signals to the new variables and the list of
-- what it writes, in order. The fifos, signals and events are the library's: what they deliver is
-- an argument. The four copies of a thread that differ only in their port are one function of the
-- port, and the four threads are named beside it. In Firewall/ the memory bus is a function from
-- address to word. Only text output is left out.
--
-- Firewall/Module puts the rounds together. Its state is the fifos, the ports and the setup
-- registers, less the direct memory ports, which stand by themselves; an event is a round of one
-- thread on it, and a run is any sequence of events, so that what holds of every run holds of
-- every interleaving. A fifo of SystemC shows a word from the cycle after it was written: a flag
-- of each event says whether the head is there to be read, and runs are not limited to those in
-- which the flags agree with the cycles. The links between the ports hold INTERNAL_FIFO_SIZE
-- words.
--
-- Board puts one port, its memory and its receiver together, cycle by cycle: all threads of a
-- cycle read the signals of the cycle before, and the port reads its fifo where it is idle.
-- System/Driven makes the module the driver's device, and System/Simulated the target behind the
-- socket of the co-simulation: an access of the driver is a call of b_transport, and from each
-- access to the next the module's threads make any number of rounds, which are listed beforehand;
-- when the list is at its end, they make none. A write of a packet waits for m_write_ended_event:
-- where none of the listed rounds notifies it (Firewall/Module/Ends), the call never returns,
-- which the bench keeps in its field `blocked`, and no access after it does anything.
--
-- The driver runs on any device, given by its ioread32 and iowrite32 over a state; a read may
-- change the state. BUG_ON ends a call. The wait of a read has fuel, and the theorem on it says
-- what is enough; ioremap is the identity on addresses. FW_KERN_LOGS is defined in the source, so
-- the read that it adds is in the model. The ioctl macros of the kernel are a parameter.
--
-- The calls of a virtual driver are functions of its accesses, the record Access. Those over
-- shared memory see the simulation as a function from the request that is left in the memory to
-- the answer found there, or none where the second semaphore is never posted; those over TCP see a
-- network that takes bytes and brings pieces. A pass of the co-simulation is such a function: the
-- request of the operating-system thread, the SystemC process's turn, and the reply, in the order
-- that the waits force. The target behind the socket is a parameter, and so is the layout of a
-- packet's bytes on TCP. What the operating system and the kernel do for semaphores, memory
-- regions and devices is a parameter, with the laws that its documentation gives.
--
-- The user-mode libraries run on any driver that is given by its ioctl calls; FW_USER_LOGS, which
-- user_mode.h leaves undefined, only prints.
--
-- Not modelled: the cycles of the module as a whole, beyond the order of its rounds, and calls of
-- b_transport that overlap; the capacity of the fifos on the bus's side and of those for
-- responses; the mappings of ioremap, which are taken for the identity, and what the kernel does
-- when it loads the module; hsoc_array_of_array.h and tokenize of library/Helper, and
-- library/Realtimify; keep_alive_process, the creation of the shared memory and the socket, and
-- the end of the co-simulation; the times and delays that packets carry, but for the arithmetic on
-- them; the applications and the regression tests, which are input and output for the most part.
pub mod Prelude
pub mod Firewall
pub mod Driver
pub mod Board
pub mod Helper
pub mod Channel
pub mod System
pub mod Cosim
pub mod Virtual
pub mod User
pub mod Tests
