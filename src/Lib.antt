-- ===== src/Lib.antt =====
-- ParleVision: the pipeline engine (src/plvcore, include/plvcore), the frames that go from its TCP
-- server to a TCP client (src/plvtcpserver), and its blob tracker (src/plvblobtracker).
--
-- A pipeline is a graph of elements. Producers and processors have output pins, processors have
-- input pins, and a connection, with a queue of data items, leads from an output pin to an input
-- pin. Pipeline::start initializes the elements, orders the graph and starts the heartbeat, which
-- calls Pipeline::schedule. That dispatches the producers, all with one serial, and the consumers
-- in the ready queue, to a pool of threads. A run puts data on the output pins; each item goes into
-- the queue of a connection and is told to the consumer behind it, whose scoreboard counts the
-- items of a serial and puts the consumer into the ready queue when there is one for each
-- synchronous pin.
--
-- Base        tests, lists, and tables as QHash and QMap
-- Graph       src/plvcore/Pipeline.cpp (generateGraphOrdering), DataConsumer.cpp and
--             DataProducer.cpp (visit): the depth-first search that orders the elements
-- Scoreboard  include/plvcore/DataConsumer.h (ScoreBoard)
-- Connection  src/plvcore/PinConnection.cpp: the queue of a connection
-- RefPtr      include/plvcore/RefPtr.h, RefCounted.h: the pointers that count references
-- Store       the objects of a pipeline and their pointers; Store/Monad: exceptions and assertions
-- Wiring      src/plvcore/PinConnection.cpp, IInputPin.cpp, IOutputPin.cpp, CvMatDataPin.cpp:
--             connecting and disconnecting pins; Wiring/Removal: Pipeline.cpp
--             (removeConnectionsForElement)
-- Delivery    src/plvcore/IOutputPin.cpp (pre, post, putVariant), PinConnection.cpp (put),
--             DataConsumer.cpp (newData): the way of an item
-- Consumer    src/plvcore/IInputPin.cpp, DataConsumer.cpp: reading items
-- Lifecycle   src/plvcore/PipelineElement.cpp (__init, __deinit, __start, __stop) and the loops of
--             Pipeline.cpp (init, deinit, start, stop) over the elements
-- Registry    src/plvcore/Pipeline.cpp (addElement, removeElement, the new ids)
-- Scheduler   src/plvcore/Pipeline.cpp (schedule, RunItem::dispatch), PipelineElement.cpp (run);
--             Scheduler/Stop: the end of a running pipeline (Pipeline::stop)
-- Enum        src/plvcore/Enum.cpp, include/plvcore/Enum.h: the choices of a property
-- Factory     src/plvcore/PipelineElementFactory.cpp: the classes of elements
-- Loader      src/plvcore/PipelineLoader.cpp: the files of pipelines, from and to the tree of a
--             document
-- Run         src/plvcore/PipelineProcessor.cpp, PipelineProducer.cpp (__ready, __process)
--
-- A TCP server element sends the frames of its input to clients, which put them on their output
-- pins and acknowledge them:
--
-- Protocol    src/plvtcpserver/Proto.h, and the loop over messages that TCPClientProducer.cpp
--             (readData) and ServerConnection.cpp (readyRead) have in common
-- Client      src/plvtcpserver/TCPClientProducer.cpp (parseFrame, ackFrame, produce), and the bytes
--             that TCPServerProcessor.cpp (process) writes
-- Server      src/plvtcpserver/ServerConnection.cpp (queueFrame, sendData, ackFrame, readyRead);
--             Server/Exchange: a connection and a client together; Server/Broadcast: Server.cpp and
--             TCPServerProcessor.cpp, the connections of an element and whether it waits for them
--
-- The blob tracker follows blobs from frame to frame:
--
-- BlobTracker src/plvblobtracker/BlobTracker.cpp (matchBlobs); BlobTracker/Track: BlobTrack.cpp;
--             BlobTracker/Overlap: Blob.cpp (matchingArea), src/plvcore/Util.cpp (overlappingArea)
--
-- State is passed on explicitly. A pointer is a number, and a heap is a function from numbers; a
-- call that may throw or fail an assertion has a Result. What code outside these files decides is a
-- parameter: init, start, stop, deinit, process, produce and readyToProduce of an element, the
-- registered types of Qt, the tree of a document (QDom), the conversions of QVariant and QString,
-- the order of iteration of a QSet or QHash, what a write to a socket takes, the coding of values by
-- QDataStream, the solver of assignments (munkres.cpp, a copy). Serials are numbers; m_serial of a
-- pipeline wraps at 2 ^ 32. Mutexes are left out: the modelled calls of different threads follow one
-- another as whole steps, in Scheduler/Steps in any order. In Loader the setter of a property stores
-- what it gets, and an element has the pins that it has when it is made; whether the types of two
-- pins fit is a parameter, so that the type that a dynamic pin takes on is left out. Ids in a file
-- are -1 or not negative.
--
-- Fuel: Graph.visit takes fuel for the depth of the recursion; with one more than the number of
-- elements it does not run out. Registry.next_pin_id takes fuel for the steps of a loop; one more
-- than the number of pins is enough. The list of answers of the socket bounds Server.send_loop; one
-- for each frame and each byte in the queue is enough. Protocol.read_loop takes fuel for the
-- messages in a socket; one more than the number of bytes is enough. The turns of the threads bound
-- Scheduler.Stop.wait.
--
-- Not modelled: the graphical interface (src/plvgui), the processors on images (src/plvopencv,
-- src/plvmskinect, BlobDetector.cpp), drawing, the addresses, ports and sessions of the TCP
-- elements, the text of the files of pipelines, plugins, messages to the user, the timers, and the
-- copies of libqxt (src/qxtlogger) and of a solver of assignments (munkres.cpp, matrix.cpp).
pub mod Base
pub mod Graph
pub mod Scoreboard
pub mod Connection
pub mod Store
pub mod Wiring
pub mod Delivery
pub mod Consumer
pub mod Lifecycle
pub mod Registry
pub mod Scheduler
pub mod Run
pub mod Protocol
pub mod Client
pub mod Server
pub mod BlobTracker
pub mod Enum
pub mod Factory
pub mod RefPtr
pub mod Loader
