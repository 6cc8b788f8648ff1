-- ===== src/Lib.antt =====
-- The SMERP server: its sessions, its network layer, its protocol library, its logging, its
-- configuration and its start, the classes for versions, authentication and the object pool,
-- parts of two of its examples and the connection of its Qt client.
--
-- A peer connects to an acceptor (src/acceptor.cpp), which starts a connection (src/connection.cpp)
-- and makes the next one. The connection is refused if its socket or the server has its maximum of
-- connections, and otherwise asks its handler for one network operation at a time
-- (src/connectionBase.hpp, include/connectionHandler.hpp). The handler of the server
-- (src/smerpHandler.cpp) sends back each line that it reads. The protocol library
-- (include/protocol, src/protocol_ioblocks.cpp) is what other handlers read and write with. All
-- parts log (src/logBackend.cpp).
--
-- Files and sources:
--   Base                     lists, texts and tests over the native numbers.
--   Network/Handler          include/connectionHandler.hpp: the operations and the virtual functions
--                            of a handler as a record, and the laws that a handler keeps.
--   Network/ConnectionBase   src/connectionBase.hpp: nextOperation, handleRead, handleWrite,
--                            handleTimeout, handleSignal and signalError, over the handler. Its
--                            children have the events as a step relation and what is safe.
--   Network/Server           src/connection.hpp, src/connection.cpp, src/acceptor.cpp and
--                            src/server.cpp: the connection lists (isFull, push, remove, pop), start
--                            and handleHandshake, handleAccept, handleStop and stop.
--   Smerp/Handler            src/smerpHandler.cpp: nextOperation, networkInput, timeoutOccured,
--                            signalOccured and errorOccured. Its children fill the laws of the
--                            interface and follow a session.
--   Protocol/Buffer          include/protocol/buffers.hpp: Buffer.
--   Protocol/CmdBuffer       include/protocol/buffers.hpp: CmdBuffer, 64 bits that wrap around.
--   Protocol/ArgBuffer       include/protocol/buffers.hpp: CArgBuffer.
--   Protocol/Parser          include/protocol/parser.hpp: skipSpaces, skipLine, getLine, CmdParser.
--   Protocol/InputBlock      include/protocol/ioblocks.hpp and src/protocol_ioblocks.cpp: getEoD.
--                            Unstuff has what it looks for, byte by byte, and the standard rules; Moves, Finish,
--                            EndOfData, Simulation and Rounds lead to Delivered.
--   Protocol/OutputBlock     include/protocol/ioblocks.hpp: OutputBlock.
--   Mtproc                   examples/mtproc/dispatcher.cpp: CommandDispatcher; States has the states
--                            that it reaches.
--   Lua                      examples/lua/luaHandler.cpp: lua_log, createVM, destroyVM, setPeer,
--                            nextOperation, networkInput and the other callbacks, over the Lua
--                            library as a parameter. Stack has the laws of that library and what
--                            a callback leaves on its stack.
--   Logging                  src/logLevel.cpp, src/logSyslogFacility.cpp, src/logBackend.cpp.
--   Config/CommandLine       src/commandLine.hpp and src/commandLine.cpp: parse.
--   Config/Application       src/appConfig.cpp: the constructor of ApplicationConfiguration and the
--                            checks.
--   Config/File              src/configFile.cpp: getBoolValue, chooseFile and, in Parse, parse, and
--                            src/resolvePath.cpp, over the property tree and the file system as
--                            parameters.
--   Main                     src/posixMain.cpp: the actions of the program from its arguments to its
--                            exit code, over the answers of the system, with the command line and
--                            the configuration of Config. Privileges has as whom the server runs,
--                            Startup with which configuration.
--   Client                   clients/qt/SMERPClient.cpp: connect, disconnect, error, connected,
--                            disconnected, dataAvailable and the slots for SSL, by the states of
--                            the client. Quiet and Socket have what they do to the socket.
--   Common/Version           src/version.cpp.
--   Common/Authentication    src/authentication_textfile.cpp.
--   Common/Pam               src/authentication_pam.cpp: nextStep, receiveData, sendData and the
--                            conversation function, over the PAM library as a parameter.
--   Common/Factory           src/authentication.cpp: str2AuthMech and AuthenticatorFactory.
--   Common/Pool              include/objectPool.hpp: get and add, as steps of threads.
-- Each folder has a module Tests with the theorems at concrete inputs.
--
-- Bytes are numbers, and texts are lists of them. An array is the list of its cells, a pointer into
-- it is an offset. Bytes that the source leaves indeterminate are arguments. `unsigned` counters
-- wrap around where the source adds to them without a bound. The loop of getEoD runs on fuel, two
-- more than the bytes of the block: every round but one moves on, and that one leads to a round
-- that goes to the end. The loop of handleStop runs on the length of its list and one.
--
-- Handlers run one at a time, each as one step. The source has one strand per acceptor and per
-- connection, so handlers of different acceptors may run at the same time on several threads; the
-- races that this allows on the connection lists are not modelled.
--
-- boost::asio, boost's string functions, OpenSSL, PAM, Lua, Qt, the file system, the system's calls
-- and <syslog.h> are represented by what was asked of them and by the events or values that they
-- may return. Not modelled: the configuration file's syntax, the counter and the singleton, the
-- Windows program and the other Windows parts, the handler of examples/mtproc, whose constructor
-- makes its dispatcher without an instance and so follows a null pointer, the handler of
-- examples/pecho, whose iterators throw at the position of their block, the other examples and the
-- windows of the Qt client.
pub mod Base
pub mod Protocol
pub mod Common
pub mod Config
pub mod Logging
pub mod Lua
pub mod Network
pub mod Mtproc
pub mod Smerp
pub mod Main
pub mod Client
