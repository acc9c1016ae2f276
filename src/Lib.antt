-- ===== src/Lib.antt =====
-- The ThingsBoard IoT gateway: how it stores the data of its connectors and uploads them.
--
-- A connector hands telemetry and attributes to the gateway as ConvertedData. The gateway saves
-- each message in an event storage, in memory, in files or in SQLite databases, and a thread
-- fetches packs of events from the storage, gathers them by device, publishes them to the
-- platform and acknowledges a pack to the storage when the platform has confirmed it. The parts
-- meet in the storage: the upload thread is modelled over any storage with the operations of
-- Storage.Contract, and its theorems take the laws of that module, which the memory storage
-- fulfils.
--
-- Storage.Memory: thingsboard_gateway/storage/memory/memory_event_storage.py. The record
--   MemoryEventStorage is the object, and put, get_event_pack, event_pack_processing_done, stop
--   and len are its methods. Fifo holds the laws, Drain reads it empty, and Refines reads a
--   history of it as that of a queue, by the laws alone: Storage.Contract.History.
-- Storage.File: thingsboard_gateway/storage/file. State has the folder (files as lists of bytes
--   and the state file) and the objects' fields, Writer event_storage_writer.py, Reader
--   event_storage_reader.py, Facade file_event_storage.py. The two pointers of the reader may be
--   one object: the field `aliased` says so, and `set_line` writes both then. Records are base64
--   lines: the parameter Codec encodes and decodes them, and IsLineCodec is what base64 promises.
--   A file's name is the number in it. Reader.InnerLoop treats a scan of a file, Position and
--   Round one round of `read`, Batch its results and Restart the state file. Writer.Append and
--   Writer.Counts treat a write.
-- Storage.Sqlite: thingsboard_gateway/storage/sqlite. Table is the SQL of database.py, Database
--   its class with storage_settings.py, Files is sqlite_event_storage.py and Startup its
--   constructor. Several databases stand in a list in the order of their names; a thread's round
--   is the operation write_round or read_ahead; a rotation is given the rounds of the writing
--   thread that fall into its wait of up to two seconds. Keeps shows what becomes of the messages
--   and Keeps.Ahead of the rows read ahead, Count counts them, Database.Expiry shows what the
--   check of age does.
-- Upload: thingsboard_gateway/gateway/tb_gateway_service.py. Pack gathers and publishes a pack
--   (__send_data), Loop is a round of __read_data_from_storage with __handle_published_events,
--   and Save the attempts of __send_data_pack_to_storage. A round is given what it reads of the
--   client and the configurator as Readings. `loads` (JSON) and the publishing client are
--   parameters. Filter is send_to_storage with device_filter.py, where `fullmatch` and what takes
--   the data are parameters. Intake is __send_to_storage_new_formatted_data: it joins Devices,
--   Entities.Objects and Save.
-- Entities: thingsboard_gateway/gateway/entities and constants.py. Strategy and Strategy.Config
--   are report_strategy_config.py, Datapoint is datapoint_key.py with telemetry_entry.py,
--   Converted, Split and Objects are converted_data.py, whose JSON sizes are parameters: Objects
--   cuts the data into objects of a size, Objects.Adding, Parts and Telemetry show what each step
--   adds, Objects.Carried what becomes of the attributes.
-- Report: thingsboard_gateway/gateway/report_strategy. Cache is report_strategy_data_cache.py and
--   Service and Periodic are report_strategy_service.py, Periodic its thread: Service.Repeated
--   and Service.Frame are about the filter. Whether two values are equal is the parameter
--   is_equal.
-- Devices: thingsboard_gateway/gateway/tb_gateway_service.py. The record Service has the fields
--   that are about devices and what was sent to the platform. Persist writes
--   connected_devices.json, Registry adds, deletes and updates a device, Notified loads the file
--   and handles renamed and deleted devices, Idle is the check for idle devices and the type of a
--   device. A method that raises ends with the reply `raised`. Rpc is
--   __rpc_to_devices_processing, the queue of the requests to devices as rounds at given times,
--   and Rpc.Replies is __send_rpc_reply, with the replies of a round in Replies.Named; a
--   connector is the parameter `handler`. Rpc.Lost joins them with what add_device does to a
--   renamed device.
-- Converters: thingsboard_gateway/connectors. S7 has the converters s7_downlink_converter.py
--   (Downlink, Request, Tags) and s7_uplink_converter.py (Uplink), Can those of the CAN
--   connector, bytes_can_downlink_converter.py and bytes_can_uplink_converter.py, which adds to
--   the ConvertedData of Entities. Bytes has what they use of int.to_bytes, int.from_bytes and
--   struct, with the round trip of integers in Bytes.Ends and of fields in a buffer in
--   Bytes.Fields. snap7, floats, encodings and the texts of dates are the parameters Snap7 and
--   Runtime; IsSnap7 and WriteInPlace say what is relied on, and Widths which bytes the values of
--   a type take.
-- Prelude: integers and lists over native numbers, Boolean tests, equality and dicts.
--
-- Bounds and fuel: numbers are Python's, without a width; integers that are written to bytes are
-- of the type ℤ of Prelude.Int, and nothing else modelled is negative. The loop of `read` over
-- files has fuel, one round for each file it may enter; a theorem about `read` states that it
-- returns. The type of a renamed device is found by recursion on fuel, and Idle.Chain says when
-- it is enough. A batch or a pack is bounded by its setting, the attempts to save by four more
-- than the first.
--
-- Not modelled: errors of the file system, a stop of the process within one operation, the
-- interleaving of the saving and the uploading thread within one operation, statistics and
-- logging; the connectors and the client, which are I/O; requests of the platform to the gateway
-- itself, shared attributes, data of connectors as dicts and the converters of the other
-- connectors, which are further work.
pub mod Converters
pub mod Devices
pub mod Entities
mod Prelude
pub mod Report
pub mod Storage
pub mod Upload
