-- ===== src/Lib.antt =====
-- Verification of the programs of this repository: eight exercises in C on processes, message
-- queues, shared memory and sockets, each in a folder of its own and each a program by itself. What
-- they share is the operating system; 07/client.c and 07/server.c talk to each other over TCP, and
-- 08/udp_sniffer.c watches the packets of a program such as 06/main.c.
--
-- Conventions. A byte is a number below 256, a buffer the list of its bytes, and a C string the
-- bytes before the first zero (Common/Text). A signed C int is an integer of Common/Int; where an
-- int can leave its 32 bits (01 and 06) the cut is written out. The functions of string.h and
-- stdio.h are written out as the code uses them (Common/Text, Common/Decimal). What the kernel
-- answers is an argument: the result of accept, recv, epoll_ctl, malloc or gettimeofday. What a
-- program does to the outside is a list of effects. An access that has no defined result in C, such
-- as a write past an array, is a result of its own: none, or fault. A program's loop over what the
-- kernel gives is a recursion on the list of that. Fuel is used where the code loops over bytes: in
-- the decimal printer (Common/Decimal), one more than the number printed; for the blocks of a file
-- (Client, Copier/Parent), its length, as each block takes a byte at least; and in the child of 01
-- (Copier), one more than the bytes in the pipe, as each round takes one at least. Prompts and log
-- lines on a program's own console are left out, unless they are its output.
--
-- 07/server.c, the chat server: Server has the state (the array clients, the counter client_count,
-- server_fd) with init_clients, find_free_slot, find_client_by_fd and broadcast_message;
-- Server/Message has handle_client_message, Server/Connection handle_new_connection, Server/Loop
-- the event loop of main. The proofs: Server/Inv, Server/Slots, Server/Preserve, Server/Admission
-- and Server/Reach (the invariant of the client table and its preservation), Server/Broadcast (who
-- is sent what), Server/Join, Server/Settle, Server/Leave and Server/Relay (what one event does).
-- Server/File has broadcast_file, which nothing calls. Server/Start has main around the loop, and
-- what holds of a whole run. FileHeader has the text that announces a file, which client and server
-- share.
--
-- 07/client.c, the chat client: Client has handle_console_command, handle_server_message,
-- receive_file and send_file. Client/Session has main from the greeting on, Client/Start main from
-- its arguments on, with what the server makes of a client's first and last messages.
-- Client/Transfer is about the blocks of a file and receive_file, Client/Delivery about a small
-- file that goes from one client through the server to another, Client/Echo about the end of the
-- input, Client/Console about what one client types and another shows, through
-- handle_client_message of the server.
--
-- 04/main.c and 05/main.c, producer and consumer over shared memory: Shm has the critical sections
-- of both programs and handle_numbers, with the one argument in which the programs differ.
-- Shm/Cells is about what the producer writes, Shm/Extremes about handle_numbers, Shm/Reads and
-- Shm/Turn about the consumer of 05/main.c, Shm/Shifted about that of 04/main.c. Shm/Schedule lets
-- the critical sections of a program take turns in any order; Shm/Stage, Shm/Steps and Shm/Order
-- are about every such order in 05/main.c, and Shm/Twins sets 04/main.c beside it. Shm/Locking has
-- what stands around the critical sections: the semaphore (sem_lock and sem_unlock, sem_wait and
-- sem_post), the flag running, the signals and what an interrupted lock does. Shm/Exclusion shows
-- that the steps come down to whole critical sections, Shm/Ending is about the consumer of
-- 05/main.c that has come to the end mark, Shm/Hanging about a producer whose consumer has ended.
-- Shm/Roles has the rest of main: which program a process is, what it makes, and what it leaves
-- behind. Before the first step the cells are cleared and the semaphore is free.
--
-- 01/main.c, the copier of files through a pipe: Copier has child_func, Copier/Parent parent_func,
-- both over the bytes in the pipe. Copier/Layout relates a Message to its bytes, Copier/Pieces the
-- two loops over the pieces of a file; Copier/Info and Copier/Copy put them together, and
-- Copier/Fuel is about the fuel of the child's loops. Copier/Start has main, for arguments of which
-- none names the copy of one (else what is read hangs on the order of the two processes, an outcome
-- of its own): the options, the two pipes with names or without, fork and what each process closes.
-- Copier/Ends is about the ends of the pipes and the names, Copier/Whole about main as a whole.
--
-- 06/main.c, the chat by UDP broadcast: Chat has the check of the port and the loop over select,
-- Chat/Rounds what its rounds send and show, Chat/Start main around the loop and signal_handler.
--
-- 08/udp_sniffer.c, the sniffer: Sniffer has the packet record, parse_packet, check_filter and
-- select_filter; Sniffer/Time has get_time_diff, Sniffer/Mac format_mac, Sniffer/Render
-- print_packet_info, Sniffer/Capture the loop capture_packets. Sniffer/Frame lays a frame out byte
-- by byte, and Sniffer/Parse relates the parser to it; more proofs are in Sniffer/Filter and
-- Sniffer/Balance. Sniffer/Fields and Sniffer/Printing are about the fields of a packet and about
-- printing it. Sniffer/Setup has main with select_interface, create_raw_socket and
-- setup_output_file, as a function of the bytes that the user types and of what the kernel answers.
-- Sniffer/Closing is about the descriptors of main, Sniffer/Typing about the lines that are typed
-- and Sniffer/Choices about what main makes of them.
--
-- 02, the message broker. Broker/Memory has the chains of nodes that every list of the program is,
-- with a tail pointer; Broker/Header the parser of a header, which 02/src/broker.c and
-- 02/src/main_sub.c write twice; Broker/Process broker_process of 02/src/broker.c, with
-- 02/src/subscriber.c and init_publisher of 02/src/publisher.c; Broker/Serve the loop of main,
-- Broker/Shutdown send_sigint_to_all. Broker/Lines has get_str_by_file and Broker/Generate
-- generate_messege, both of 02/src/publisher.c; Broker/Client the rest of 02/src/main_sub.c and
-- 02/src/main_pub.c. Messages go from the clients to the broker and back through one queue, whose
-- state is what msgsnd and msgrcv answer. Broker/Book says without pointers what the broker is for.
-- The proofs: Broker/Chain and Broker/Append (a chain in memory and one node more), Broker/Message
-- (a header and its parser), Broker/Sending, Broker/Joining, Broker/Naming, Broker/Topics,
-- Broker/Publishing, Broker/Subscribing and Broker/Refine (the code does what the book says),
-- Broker/Audience and Broker/Delivery (who is sent what), Broker/Learning (the topics of a
-- subscriber). Broker/Subscriber has main of 02/src/main_sub.c and of 02/src/main_pub.c. Loops over
-- a list run on one more than the nodes that were allocated, which a list without a cycle cannot
-- exceed; the loop over a file on more than its bytes; the wait for the end on the code's own five
-- seconds.
--
-- 03/main.c, the chat over two POSIX queues: Dialog has the two threads, the queue between them and
-- the actions of the whole dialog, in any order; mq_send and mq_receive keep the order that POSIX
-- gives them, by priority and then by age. Dialog/Mails is about the queue, Dialog/Writer and
-- Dialog/Reader about the two threads, Dialog/Console about what a console gives, Dialog/Delivery
-- about the whole, Dialog/Parting about its end, Dialog/Turn about lines that are read as they are
-- typed. Dialog/Opening has main: the names of the queues, and who creates, opens and removes them.
-- Dialog/Crossing is about two users who start one after the other. The channel there of the dialog
-- is the queue with the second name.
--
-- Common/Names has what the kernel keeps by name, Common/Handles traces of descriptors.
--
-- Not modelled: the draft of the types in 02/src/main.c; check_sem_val of 04/main.c, which nothing
-- calls; the calls by which 02/src/broker.c makes and removes the message queue. Errors of a
-- semaphore other than an interrupted or removed one, of pthread_create, and of opening a pipe that
-- is there, are left out.
pub mod Common
pub mod FileHeader
pub mod Server
pub mod Client
pub mod Sniffer
pub mod Shm
pub mod Copier
pub mod Chat
pub mod Broker
pub mod Dialog
