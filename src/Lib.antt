-- ===== src/Lib.antt =====
-- Re-BOOT, the host side of a boot loader: it reads an Intel HEX file, cuts the image into the flash
-- sectors of a target, and sends them in frames over a serial line, TCP, UDP or CAN. Its documentation
-- under docs/ is a set of pages with a viewer in JavaScript.
--
-- Modules:
-- Base holds what the others share: Boolean tests, lists with native lengths, texts, bit operations.
-- Crc models `crc16_ccitt` (comm/transport_layer.c), `crc32` (utility/data_conversion.c) and the
--   checksum loop of `pipeline_sector_crc` (utility/pipeline.c).
-- Transport models `transport_send` and the two parsers of `transport_receive`
--   (comm/transport_layer.c). The file-level parser variables are the records StreamRx and CanRx. The
--   reads of a driver are a list: an entry is the byte of a read, or `none` for a read that returned 0
--   or less, and the running flag is cleared at the end of the list. The packet's array has 64 bytes;
--   an access outside of it, which C leaves undefined, is the value `overread` or `overrun`.
-- Pipeline models utility/pipeline.c: `pipeline_build` with `find_sector` and `insert_record`,
--   `pipeline_next_segment` and `pipeline_sector_crc`. The array of sectors is a list, a pointer to a
--   sector its index; allocation succeeds. A copy of more bytes than a sector's buffer has is cut short,
--   where C reads past it. Uses Crc.
-- HexFile models utility/file_mgmt.c: the lines of `get_file_size` and `read_hex_file`, with
--   `hex_to_int` (utility/data_conversion.c), and how init/main.c calls them. A file is the list of its
--   characters, cut into pieces as `fgets` returns them; reads outside the array `line` and writes past
--   the pool are the values `overread` and `overrun`; what the array and the pool hold at first is an
--   argument.
--   HexFile.Print has the texts that a program writes. Uses Pipeline for the records and the image.
-- Queue models thread/queues.c: a heap of cells in which a freed cell is empty, pointers as numbers of
--   cells, each operation one step because it holds the mutex.
-- Fsm models the dispatcher of utility/fsm.c. A state is the list of its identifier and its ancestors';
--   the handlers and actions are an argument, which may dispatch events; the queue of events is a list.
-- Session models init/fsm_actions.c, and Session.Loop init/fsm_table.c on the machine of Fsm, the start
--   of the machine and the loop of init/main.c. A session is a list of what each round of the loop finds
--   in the queue of packets; packets that are sent are added to a list; what C leaves undefined sets
--   `fault`, behind which no action runs. Session.Target has a target that answers, and the loop with it;
--   its rounds are counted. Uses Fsm, Pipeline and Transport.
-- Docs models parts of the viewer. Docs.Ids is `convertToId`, Docs.Results `createResults` and
--   `SearchResults.Search`, Docs.Nav the key handlers of `SearchResults` (docs/search/search.js);
--   Docs.Box is the state of `SearchBox` under its events, the positions on the page left out, and
--   Docs.Box.Select the marks in its selection window, with docs/search/searchdata.js;
--   Docs.NavTree is where `navTo` and `gotoNode` lead (docs/navtree.js), with the tables of
--   docs/navtreedata.js, docs/navtreeindex0.js and docs/navtreeindex1.js; Docs.Menu is `makeTree` of
--   docs/menu.js, on the data of docs/menudata.js; Docs.Directory has the table of files of
--   docs/dynsections.js, Docs.Fold its sections and listings. The elements of a page are records with
--   the attributes that the code reads. `toLowerCase`, which needs the tables of Unicode, and `$.extend`
--   of jQuery are arguments.
--
-- The loops run over lists or count down what the code counts up, so no fuel is chosen, but for
-- `transmit`, the calls that send one sector: its fuel is the sector size and one, `queue_destroy`, whose
-- fuel is the size of the queue and one, and `fsm_run`, which goes on as long as handlers dispatch
-- events: its rounds are counted. A round of a session has seven, since a packet leads to five events at
-- most.
--
-- Numbers are naturals; where a C word wraps round the modulus is written out.
--
-- Not modelled: the drivers (driver/), the threads (thread/threads.c, comm/comm_manager.c), the start of
-- the program, what a session prints and logs, `act_seg_ack`, which no transition names, the command line,
-- the pool allocator, and of the viewer the drawing of the tree, docs/resize.js, and what docs/menu.js
-- does besides `makeTree`.
pub mod Base
pub mod Crc
pub mod Docs
pub mod Fsm
pub mod HexFile
pub mod Pipeline
pub mod Queue
pub mod Session
pub mod Transport
