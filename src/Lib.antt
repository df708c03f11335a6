-- ===== src/Lib.antt =====
-- A verification library of dmitigr/fcgi, a FastCGI server library in C++.
--
-- The program. A listener (src/fcgi/listener.cpp) accepts a connection of a web server, reads the record that begins a
-- request and makes a server connection (src/fcgi/server_connection_stacked.cpp). This owns three streams
-- (src/fcgi/streams.cpp) over three stream buffers (src/fcgi/streambuf.cpp): the input stream first reads the
-- parameters of the request, with Names_values (src/fcgi/basics.cpp), and then the request's body; the output and the
-- error stream send what the application writes; all go through one descriptor (src/net/descriptor.hpp).
--
-- The files.
--   Prelude, Prelude/*: Boolean tests, lists and bits over the native numbers.
--   Outcome: the results of the code: a value, an exception, a failed assertion (which ends the process), undefined
--   behaviour, or fuel that has run out. Outcome/Holds: what holds of the state after a program.
--   Math/Alignment: padding and aligned of src/math/alignment.hpp, on 64-bit values.
--   Math/Interval: the interval of src/math/interval.hpp, over any order.
--   Net/Endpoint: the endpoint of src/net/endpoint.hpp, as it is compiled outside Windows; Net/Pipe has that of Windows.
--   Net/Os: the system calls of the network layer, as a record of functions on a state of the system.
--   Net/Address: the addresses of src/net/address.hpp, over ::inet_pton and ::inet_ntop.
--   Net/Socket: src/net/socket.hpp: the guard of a socket, and poll().
--   Net/Listener: the options and the listener of src/net/listener.hpp; Net/Listener/Owning says which descriptors are
--   open, Net/Listener/Keeping and Net/Listener/Steps how each operation changes that, Net/Listener/Reaching has the
--   listener's life as steps, Net/Listener/Failing the calls that fail.
--   Net/Closing: close() of socket_Descriptor and the loop that drains the peer; Net/Closing/Leaving says what its
--   destructor leaves open.
--   Net/Handle: src/os/windows.hpp, the guard of a handle. Net/Pipe: the named pipes of Windows; Net/Pipe/Listening is
--   pipe_Listener and Net/Pipe/Reading pipe_Descriptor.
--   Net/Client: src/net/client.hpp. Net/Conversions: src/net/conversions.hpp and src/util/endianness.hpp.
--   Net/Descriptor: read and write of socket_Descriptor, over lists of what ::recv and ::send will do.
--   Basics, Basics/Header, Basics/Bodies: the records of the protocol of src/fcgi/basics.cpp, byte by byte.
--   Istream: what of std::istream the code uses, over any stream buffer; an exception of the buffer sets badbit.
--   NamesValues: Names_values and Name_value of src/fcgi/basics.cpp, over any stream buffer.
--   Connection: the members of iServer_connection of src/fcgi/server_connection.cpp.
--   Streambuf: server_Streambuf. A state `St` is a buffer with its connection; pointers into the buffer are offsets.
--   Streambuf/Reader is underflow(), Streambuf/ProcessHeader is process_header(), Streambuf/Writer is overflow(),
--   sync() and close(); Streambuf/Setting has the constructor and setbuf(), Streambuf/Oversized a record that is
--   larger than the buffer, Streambuf/Stale the header that the loop keeps.
--   Streambuf/Delivery: reading, against an independent description of the bytes of a stream (Delivery/Frames);
--   Delivery/Cut and Delivery/Torn have connections that end too early, Delivery/Foreign what is decided of a record of
--   another request, and Delivery/Strangers what comes of the bytes behind it.
--   Streambuf/Managing: what is answered to a get-values record, and what is read for it.
--   Streambuf/Sending: writing, against the same description; Sending/Failing where ::send does not take all,
--   and Sending/Retrying closing again after a failure.
--   Server: server_Istream's constructor, stack_buffers_Server_connection and what Listener::accept does with the
--   bytes of an accepted connection.
--   Server/Parameters reads a responder's request, Server/Filtering a filter's; Server/Session is the application's
--   writing to a connection, Server/Closing its end; Server/Destroying and Server/Retrying
--   the destructors where a ::send fails, Server/Unread where a filter has not read its stdin; Server/Serving a request
--   from accept() to its end; Server/Lookup the parameters by their names.
--   Listener: the options and the listener of src/fcgi/listener.cpp, over those of Net/Listener and over Server;
--   Listener/Owning says what accept() leaves open, Listener/Settling that it comes to an end.
--   Rnd: the UUID of src/rnd/uuid.hpp, over what ::rand gives.
--   Files: the searches of src/fs/misc.hpp.
--   Tests: the theorems at concrete inputs.
--
-- Bounds and fuel. An int is the number of its bit pattern. The loop of underflow() and the loop that reads the pairs
-- take fuel; for a stream of the described form `enough`, 265, is enough for each call of underflow(), a unit for each
-- byte of a padding and a header, and the reading of pairs needs one unit more than there are pairs. The theorems on
-- such streams say that a result is returned.
--
-- The loop that drains a peer takes fuel, of which the number of the bytes that the peer still sends is enough; that of
-- parent_directory_path needs more than the current path has names.
--
-- Not modelled: the environment, the random strings and the statistics; what the sockets do otherwise on Windows; the
-- forwarding members of the stream classes; the texts of exceptions; the allocation of memory. A connection is one
-- descriptor whose arrivals and answers to ::send are lists in its state.
pub mod Prelude
pub mod Outcome
pub mod Math
pub mod Net
pub mod Rnd
pub mod Files
pub mod Basics
pub mod Istream
pub mod NamesValues
pub mod Connection
pub mod Streambuf
pub mod Server
pub mod Listener
pub mod Tests
